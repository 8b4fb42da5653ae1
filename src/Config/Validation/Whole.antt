-- ===== src/Config/Validation/Whole.antt =====
-- internal/config/validation_methods.go: Config.Validate accepts just the configurations that
-- `IsConfig` describes.
use golang_helloworld.Prelude.{
  Bool, List, Option, [], false, gather-nil, iff_last, iff_pair, iff_trans, if◌then◌else◌, inl, inr,
  none, not, not_iff, refl, some, true, ◌&&◌, ◌↔◌, ◌∷◌, ◌≡◌, ◌≢◌, ◌⊎◌,
}
use golang_helloworld.Text.{Str, bytes, str_eq, str_eq_iff}
use golang_helloworld.Config.{Config, LoggingConfig}
use golang_helloworld.Config.Validation.{
  Url, ValidationError, bucket_name_empty, bucket_name_invalid, bucket_name_refused,
  check_credentials, check_upload_size_limit, complain_if, complain_or, database_url_missing,
  endpoint_empty, format_unknown, if_present, known_provider, level_unknown, provider_unknown,
  valid_format, valid_level, validate, validate_database, validate_logging, validate_server,
  validate_server_timeouts, validate_storage, validate_storage_credentials_and_limits,
}
use golang_helloworld.Config.Validation.Accepted.{
  AreTimeouts, IsDatabase, IsEnvironment, IsPort, IsStorage, Present, bucket_name_refused-IsBucket,
  check_credentials-AreCredentials, check_endpoint_iff, check_upload_size_limit-IsUploadLimit,
  check_url-IsDatabase, complain_if-nil, seen_in-IsOneOf, validate_server_iff,
  validate_server_timeouts-AreTimeouts,
}

if_present-Present :
    {A : Type 0} {P : A → Type 0} (check : A → List ValidationError)
    → ((a : A) → (check a ≡ []) ↔ P a)
    → (o : Option A) → (if_present check o ≡ []) ↔ Present P o
if_present-Present check iff none = (λ h. tt, λ h. refl)
if_present-Present check iff (some a) = iff a

validate_storage-IsStorage :
    (c : Config) → (validate_storage c ≡ []) ↔ IsStorage c.environment c.storage
unfolding validate_storage
validate_storage-IsStorage c =
    let s = c.storage in
    let endpoint =
      complain_if (not (str_eq s.provider (bytes "gcs")) && str_eq s.endpoint []) endpoint_empty in
    let named =
      complain_or (str_eq s.bucket_name []) bucket_name_empty
        (complain_if (bucket_name_refused s.provider s.bucket_name) bucket_name_invalid) in
    let known = not (known_provider s.provider) in
    let limits =
      gather-nil (check_credentials c ∷ check_upload_size_limit s.max_upload_size ∷ []) in
    let all = gather-nil (
      complain_if known provider_unknown
      ∷ endpoint
      ∷ named
      ∷ validate_storage_credentials_and_limits c
      ∷ []) in
    let provider = iff_trans (complain_if-nil known provider_unknown) (
      iff_trans (not_iff (known_provider s.provider))
        (seen_in-IsOneOf s.provider ([] ∷ bytes "s3" ∷ bytes "gcs" ∷ []))) in
    let bucket = bucket_name_refused-IsBucket s.provider s.bucket_name in
    let credentials = check_credentials-AreCredentials c in
    let upload = check_upload_size_limit-IsUploadLimit s.max_upload_size in
    (
      λ h.
          let (a, (b, (d, (e, _)))) = all.0 h in
          let (f, (g, _)) = limits.0 e in
          record {
            provider_known = provider.0 a;
            endpoint_given = (check_endpoint_iff s).0 b;
            bucket_named = bucket.0 d;
            credentials_safe = credentials.0 f;
            upload_limited = upload.0 g;
          },
      λ h. all.1 (
        provider.1 h.provider_known,
        (
          (check_endpoint_iff s).1 h.endpoint_given,
          (
            bucket.1 h.bucket_named,
            (limits.1 (credentials.1 h.credentials_safe, (upload.1 h.upload_limited, tt)), tt),
          ),
        ),
      ),
    )

module _ (parse_url : Str → Option Url) (equal_fold : Str → Str → Bool) where
  abbrev pub AreLogs : LoggingConfig → Type 0
  AreLogs l = (valid_level equal_fold l.level ≡ true) × (valid_format equal_fold l.format ≡ true)

  -- The test environment alone may do without a database.
  abbrev pub HasDatabase : Config → Type 0
  HasDatabase c =
      ((c.environment ≡ bytes "test") × (c.database_url ≡ []))
      ⊎ ((c.database_url ≢ []) × IsDatabase (parse_url c.database_url))

  pub record IsConfig (c : Config) : Type 0 where
    pub port_fits : IsPort c.port
    pub environment_known : IsEnvironment c.environment
    pub database_fits : HasDatabase c
    pub storage_fits : IsStorage c.environment c.storage
    pub logs_fit : Present AreLogs c.logging
    pub timeouts_fit : Present AreTimeouts c.server

  validate_logging-AreLogs : (l : LoggingConfig) → (validate_logging equal_fold l ≡ []) ↔ AreLogs l
  unfolding validate_logging
  validate_logging-AreLogs l =
      let level = valid_level equal_fold l.level in
      let format = valid_format equal_fold l.format in
      iff_trans
        (gather-nil
          (complain_if (not level) level_unknown ∷ complain_if (not format) format_unknown ∷ []))
        (iff_pair (iff_trans (complain_if-nil (not level) level_unknown) (not_iff level))
          (iff_last (iff_trans (complain_if-nil (not format) format_unknown) (not_iff format))))

  validate_database-HasDatabase :
      (c : Config) → (validate_database parse_url c ≡ []) ↔ HasDatabase c
  unfolding validate_database
  validate_database-HasDatabase c =
      go (str_eq c.environment (bytes "test")) (str_eq c.database_url [])
        (str_eq_iff c.environment (bytes "test")) (str_eq_iff c.database_url [])
        (check_url-IsDatabase (parse_url c.database_url))
    where
      go :
          {A B C : Type 0} {rest : List ValidationError} (a b : Bool)
          → (a ≡ true) ↔ A
          → (b ≡ true) ↔ B
          → (rest ≡ []) ↔ C
          → (complain_or (not a && b) database_url_missing (if b then [] else rest) ≡ [])
            ↔ ((A × B) ⊎ (¬ B × C))
      go true true ea eb ec = (λ h. inl (ea.0 refl, eb.0 refl), λ h. refl)
      go false true ea eb ec = (
        λ h. absurd (cc h),
        λ h. absurd (elim h [ inl (x, _) ↦ cc (ea.1 x) | inr (given, _) ↦ given (eb.0 refl) ]),
      )
      go true false ea eb ec = (
        λ h. inr (λ y. cc (eb.1 y), ec.0 h),
        λ h. elim h [ inl (_, y) ↦ absurd (cc (eb.1 y)) | inr (_, fits) ↦ ec.1 fits ],
      )
      go false false ea eb ec = (
        λ h. inr (λ y. cc (eb.1 y), ec.0 h),
        λ h. elim h [ inl (x, _) ↦ absurd (cc (ea.1 x)) | inr (_, fits) ↦ ec.1 fits ],
      )

  -- Validate reports nothing just when the configuration is as `IsConfig` says: a port from 1 to
  -- 65535, a known environment, a postgres database (the test environment may do without one), a
  -- provider with its endpoint and a bucket name that it takes, no minioadmin credentials in
  -- production, an upload limit of 100 MB at most, and, where the sections are there, a known
  -- level and format, read and write timeouts of more than nothing and up to 5 minutes, and an idle
  -- timeout of more than nothing, however long.
  pub validate-IsConfig : (c : Config) → (validate parse_url equal_fold c ≡ []) ↔ IsConfig c
  unfolding validate
  validate-IsConfig c =
      let all = gather-nil (
        validate_server c
        ∷ validate_database parse_url c
        ∷ validate_storage c
        ∷ if_present (validate_logging equal_fold) c.logging
        ∷ if_present validate_server_timeouts c.server
        ∷ []) in
      let basic = validate_server_iff c in
      let database = validate_database-HasDatabase c in
      let stored = validate_storage-IsStorage c in
      let logs =
        if_present-Present (validate_logging equal_fold) validate_logging-AreLogs c.logging in
      let timeouts =
        if_present-Present validate_server_timeouts validate_server_timeouts-AreTimeouts c.server in
      (
        λ h.
            let (a, (b, (d, (e, (f, _))))) = all.0 h in
            let (port_ok, environment_ok) = basic.0 a in
            record {
              port_fits = port_ok;
              environment_known = environment_ok;
              database_fits = database.0 b;
              storage_fits = stored.0 d;
              logs_fit = logs.0 e;
              timeouts_fit = timeouts.0 f;
            },
        λ h. all.1 (
          basic.1 (h.port_fits, h.environment_known),
          (
            database.1 h.database_fits,
            (stored.1 h.storage_fits, (logs.1 h.logs_fit, (timeouts.1 h.timeouts_fit, tt))),
          ),
        ),
      )
