-- ===== src/Config/Validation/Accepted.antt =====
-- internal/config/validation_methods.go: what Config.Validate accepts.
use golang_helloworld.Prelude.{
  Bool, Bool-cases, List, Option, [], arith, false, gather, gather-nil, iff_last, iff_pair,
  iff_trans, if◌then◌else◌, inl, inr, none, not, not_iff, or_false_iff, refl, some, true, ℕ, ◌&&◌,
  ◌*◌, ◌||◌, ◌↔◌, ◌∷◌, ◌≡◌, ◌≢◌, ◌≤◌, ◌⊎◌,
}
use golang_helloworld.Text.{Str, bytes, str_eq, str_eq-false, str_eq_iff, str_eq→≡}
use golang_helloworld.Text.Decimal.{atoi, negsuc, pos, ℤ}
use golang_helloworld.Domain.{below}
use golang_helloworld.Domain.Request.{seen_in}
use golang_helloworld.Config.{Config, ServerConfig, StorageConfig}
use golang_helloworld.Config.Bucket.{
  IsBucketName, is_valid_bucket_name, is_valid_bucket_name-IsBucketName, is_valid_gcs_bucket_name,
}
use golang_helloworld.Config.Validation.{
  Url, ValidationError, bucket_name_empty, bucket_name_invalid, bucket_name_refused,
  check_credentials, check_environment, check_port, check_port_value, check_timeout,
  check_upload_size_limit, check_url, complain_if, complain_or, database_url_host,
  database_url_name, database_url_scheme, endpoint_empty, environment_unknown, five_minutes,
  idle_timeout_not_positive, minioadmin_key, minioadmin_secret, read_timeout_not_positive,
  read_timeout_too_long, valid_environment, validate_server, validate_server_timeouts,
  write_timeout_not_positive, write_timeout_too_long,
}

abbrev pub IsOneOf : Str → List Str → Type 0
IsOneOf s [] = ⊥
IsOneOf s (t ∷ ts) = (s ≡ t) ⊎ IsOneOf s ts

abbrev pub IsPort : Str → Type 0
IsPort s = (n : ℕ) × (atoi s ≡ some (pos n)) × (1 ≤ n) × (n ≤ 65535)

abbrev pub IsEnvironment : Str → Type 0
IsEnvironment env =
    IsOneOf env
      ([] ∷ bytes "development" ∷ bytes "production" ∷ bytes "test" ∷ bytes "staging" ∷ [])

abbrev pub IsDatabase : Option Url → Type 0
IsDatabase none = ⊥
IsDatabase (some u) =
    IsOneOf u.scheme (bytes "postgres" ∷ bytes "postgresql" ∷ [])
    × ((u.url_host ≢ []) × ((u.path ≢ []) × (u.path ≢ bytes "/")))

abbrev pub IsTimeout : ℤ → Type 0
IsTimeout (pos n) = (1 ≤ n) × (n ≤ five_minutes)
IsTimeout (negsuc n) = ⊥

abbrev pub IsPositive : ℤ → Type 0
IsPositive (pos n) = 1 ≤ n
IsPositive (negsuc n) = ⊥

abbrev pub IsUploadLimit : ℤ → Type 0
IsUploadLimit (pos n) = n ≤ 100 * 1024 * 1024
IsUploadLimit (negsuc n) = Unit

abbrev pub Present {ℓ} : {A : Type ℓ} → (A → Type 0) → Option A → Type 0
Present P none = Unit
Present P (some a) = P a

pub complain_if-nil : (b : Bool) (e : ValidationError) → (complain_if b e ≡ []) ↔ (b ≡ false)
complain_if-nil true e = (λ h. absurd (cc h), λ h. absurd (cc h))
complain_if-nil false e = (λ h. refl, λ h. refl)

complain_or-nil :
    (b : Bool) (e : ValidationError) (rest : List ValidationError)
    → (complain_or b e rest ≡ []) ↔ ((b ≡ false) × (rest ≡ []))
complain_or-nil true e rest = (λ h. absurd (cc h), λ h. absurd (cc (h.0)))
complain_or-nil false e rest = (λ h. (refl, h), λ h. h.1)

other_side {ℓ κ} : {A : Type ℓ} {B : Type κ} → ¬ A → A ⊎ B → B
other_side never (inl a) = absurd (never a)
other_side never (inr b) = b

neither_iff : (a b : Bool) → ((not a && not b) ≡ false) ↔ ((a || b) ≡ true)
neither_iff true b = (λ h. refl, λ h. refl)
neither_iff false true = (λ h. refl, λ h. refl)
neither_iff false false = (λ h. cc h, λ h. cc h)

pub seen_in-IsOneOf : (s : Str) (ts : List Str) → (seen_in s ts ≡ true) ↔ IsOneOf s ts
seen_in-IsOneOf s [] = (λ h. cc h, λ h. absurd h)
seen_in-IsOneOf s (t ∷ ts) =
    let (ahead, back) = seen_in-IsOneOf s ts in
    elim (Bool-cases (str_eq s t)) [
      | inl same ↦ rw same (λ h. inl (str_eq→≡ s t same), λ h. refl)
      | inr apart ↦
          rw apart (λ h. inr (ahead h), λ h. back (other_side ((str_eq-false s t).0 apart) h))
    ]

abbrev IsPortValue : Option ℤ → Type 0
IsPortValue read = (n : ℕ) × (read ≡ some (pos n)) × (1 ≤ n) × (n ≤ 65535)

check_port_value-IsPortValue : (read : Option ℤ) → (check_port_value read ≡ []) ↔ IsPortValue read
check_port_value-IsPortValue none = (λ h. absurd (cc h), λ (n, e, _, _). absurd (cc e))
check_port_value-IsPortValue (some (pos n)) =
    (λ h. (n, refl, ground arith, ground arith), λ (m, e, low, high). ground arith)
check_port_value-IsPortValue (some (negsuc n)) = (λ h. absurd (cc h), λ (m, e, _, _). absurd (cc e))

atoi_empty : atoi [] ≡ none
unfolding atoi
atoi_empty = refl

check_port-IsPort : (port : Str) → (check_port port ≡ []) ↔ IsPort port
unfolding str_eq
check_port-IsPort [] = (λ h. absurd (cc h), λ (n, e, _, _). absurd (cc (e, atoi_empty)))
check_port-IsPort (b ∷ s) = check_port_value-IsPortValue (atoi (b ∷ s))

check_environment-IsEnvironment : (env : Str) → (check_environment env ≡ []) ↔ IsEnvironment env
check_environment-IsEnvironment env =
    iff_trans
      (complain_if-nil (not (str_eq env []) && not (valid_environment env)) environment_unknown)
      (iff_trans (neither_iff (str_eq env []) (valid_environment env)) (
        seen_in-IsOneOf env
          ([] ∷ bytes "development" ∷ bytes "production" ∷ bytes "test" ∷ bytes "staging" ∷ [])))

check_timeout-IsTimeout :
    (t : ℤ) (low high : ValidationError) → (check_timeout t low high ≡ []) ↔ IsTimeout t
check_timeout-IsTimeout (pos n) low high = (λ h. ground arith, λ h. ground arith)
check_timeout-IsTimeout (negsuc n) low high = (λ h. ground arith, λ h. ground arith)

check_idle-IsPositive :
    (t : ℤ) → (complain_if (below t 1) idle_timeout_not_positive ≡ []) ↔ IsPositive t
check_idle-IsPositive (pos n) = (λ h. ground arith, λ h. ground arith)
check_idle-IsPositive (negsuc n) = (λ h. ground arith, λ h. ground arith)

pub check_upload_size_limit-IsUploadLimit :
    (size : ℤ) → (check_upload_size_limit size ≡ []) ↔ IsUploadLimit size
check_upload_size_limit-IsUploadLimit (pos n) = (λ h. ground arith, λ h. ground arith)
check_upload_size_limit-IsUploadLimit (negsuc n) = (λ h. tt, λ h. refl)

or_end : (a b : Bool) → ((a || b) ≡ true) ↔ ((a || (b || false)) ≡ true)
or_end true b = (λ h. refl, λ h. refl)
or_end false true = (λ h. refl, λ h. refl)
or_end false false = (λ h. h, λ h. h)

pub check_url-IsDatabase : (u : Option Url) → (check_url u ≡ []) ↔ IsDatabase u
check_url-IsDatabase none = (λ h. absurd (cc h), λ h. absurd h)
check_url-IsDatabase (some u) =
    let known = str_eq u.scheme (bytes "postgres") in
    let known_too = str_eq u.scheme (bytes "postgresql") in
    let root = str_eq u.path (bytes "/") in
    iff_trans
      (gather-nil (
        complain_if (not known && not known_too) database_url_scheme
        ∷ complain_if (str_eq u.url_host []) database_url_host
        ∷ complain_if (str_eq u.path [] || root) database_url_name
        ∷ []))
      (iff_pair
        (iff_trans (complain_if-nil (not known && not known_too) database_url_scheme) (
          iff_trans (neither_iff known known_too) (
            iff_trans (or_end known known_too)
              (seen_in-IsOneOf u.scheme (bytes "postgres" ∷ bytes "postgresql" ∷ [])))))
        (iff_pair
          (iff_trans (complain_if-nil (str_eq u.url_host []) database_url_host)
            (str_eq-false u.url_host []))
          (iff_last (
            iff_trans (complain_if-nil (str_eq u.path [] || root) database_url_name) (
              iff_trans (or_false_iff (str_eq u.path []) root)
                (iff_pair (str_eq-false u.path []) (str_eq-false u.path (bytes "/"))))))))

abbrev pub IsBucket : Str → Str → Type 0
IsBucket provider name =
    (name ≢ [])
    × (if str_eq provider (bytes "gcs")
        then (is_valid_gcs_bucket_name name ≡ true)
        else IsBucketName name)

abbrev pub AreCredentials : Str → StorageConfig → Type 0
AreCredentials env s =
    env ≡ bytes "production"
    → (s.access_key_id ≢ bytes "minioadmin") × (s.secret_access_key ≢ bytes "minioadmin")

pub record IsStorage (env : Str) (s : StorageConfig) : Type 0 where
  pub provider_known : IsOneOf s.provider ([] ∷ bytes "s3" ∷ bytes "gcs" ∷ [])
  pub endpoint_given : s.provider ≢ bytes "gcs" → s.endpoint ≢ []
  pub bucket_named : IsBucket s.provider s.bucket_name
  pub credentials_safe : AreCredentials env s
  pub upload_limited : IsUploadLimit s.max_upload_size

abbrev pub AreTimeouts : ServerConfig → Type 0
AreTimeouts s = IsTimeout s.read_timeout × (IsTimeout s.write_timeout × IsPositive s.idle_timeout)

pub validate_server_iff :
    (c : Config) → (validate_server c ≡ []) ↔ (IsPort c.port × IsEnvironment c.environment)
unfolding validate_server
validate_server_iff c =
    iff_trans (gather-nil (check_port c.port ∷ check_environment c.environment ∷ [])) (
      iff_pair (check_port-IsPort c.port)
        (iff_last (check_environment-IsEnvironment c.environment)))

pub validate_server_timeouts-AreTimeouts :
    (s : ServerConfig) → (validate_server_timeouts s ≡ []) ↔ AreTimeouts s
unfolding validate_server_timeouts
validate_server_timeouts-AreTimeouts s =
    iff_trans
      (gather-nil (
        check_timeout s.read_timeout read_timeout_not_positive read_timeout_too_long
        ∷ check_timeout s.write_timeout write_timeout_not_positive write_timeout_too_long
        ∷ complain_if (below s.idle_timeout 1) idle_timeout_not_positive
        ∷ []))
      (iff_pair
        (check_timeout-IsTimeout s.read_timeout read_timeout_not_positive read_timeout_too_long)
        (iff_pair
          (check_timeout-IsTimeout s.write_timeout write_timeout_not_positive
            write_timeout_too_long)
          (iff_last (check_idle-IsPositive s.idle_timeout))))

pub check_endpoint_iff :
    (s : StorageConfig)
    → (complain_if (not (str_eq s.provider (bytes "gcs")) && str_eq s.endpoint []) endpoint_empty
        ≡ [])
      ↔ (s.provider ≢ bytes "gcs" → s.endpoint ≢ [])
check_endpoint_iff s =
    go (str_eq s.provider (bytes "gcs")) (str_eq s.endpoint [])
      (str_eq_iff s.provider (bytes "gcs")) (str_eq_iff s.endpoint [])
  where
    go :
        {A B : Type 0} (a b : Bool)
        → (a ≡ true) ↔ A
        → (b ≡ true) ↔ B
        → (complain_if (not a && b) endpoint_empty ≡ []) ↔ (¬ A → ¬ B)
    go true b ea eb = (λ h never. absurd (never (ea.0 refl)), λ h. refl)
    go false true ea eb = (λ h. absurd (cc h), λ h. absurd (h (λ x. cc (ea.1 x)) (eb.0 refl)))
    go false false ea eb = (λ h never y. cc (eb.1 y), λ h. refl)

pub bucket_name_refused-IsBucket :
    (provider name : Str)
    → (complain_or
          (str_eq name [])
          bucket_name_empty
          (complain_if (bucket_name_refused provider name) bucket_name_invalid)
        ≡ [])
      ↔ IsBucket provider name
unfolding bucket_name_refused
bucket_name_refused-IsBucket provider name =
    iff_trans
      (complain_or-nil (str_eq name []) bucket_name_empty
        (complain_if (bucket_name_refused provider name) bucket_name_invalid))
      (iff_pair (str_eq-false name []) (
        iff_trans (complain_if-nil (bucket_name_refused provider name) bucket_name_invalid)
          (elim (Bool-cases (str_eq provider (bytes "gcs"))) [
            | inl gcs ↦ rw gcs (not_iff (is_valid_gcs_bucket_name name))
            | inr s3 ↦ rw s3 (
                iff_trans (not_iff (is_valid_bucket_name name))
                  (is_valid_bucket_name-IsBucketName name))
          ])))

pub check_credentials-AreCredentials :
    (c : Config) → (check_credentials c ≡ []) ↔ AreCredentials c.environment c.storage
check_credentials-AreCredentials c =
    let key = str_eq c.storage.access_key_id (bytes "minioadmin") in
    let secret = str_eq c.storage.secret_access_key (bytes "minioadmin") in
    let safe : (gather (complain_if key minioadmin_key ∷ complain_if secret minioadmin_secret ∷ [])
          ≡ [])
        ↔ ((c.storage.access_key_id ≢ bytes "minioadmin")
            × (c.storage.secret_access_key ≢ bytes "minioadmin")) =
      iff_trans
        (gather-nil (complain_if key minioadmin_key ∷ complain_if secret minioadmin_secret ∷ []))
        (iff_pair
          (iff_trans (complain_if-nil key minioadmin_key)
            (str_eq-false c.storage.access_key_id (bytes "minioadmin")))
          (iff_last (
            iff_trans (complain_if-nil secret minioadmin_secret)
              (str_eq-false c.storage.secret_access_key (bytes "minioadmin"))))) in
    elim (Bool-cases (str_eq c.environment (bytes "production"))) [
      | inl production ↦ rw production (
        λ h _. safe.0 h,
        λ h. safe.1 (h (str_eq→≡ c.environment (bytes "production") production)),
      )
      | inr elsewhere ↦ rw elsewhere (
        λ h e. absurd ((str_eq-false c.environment (bytes "production")).0 elsewhere e),
        λ h. refl,
      )
    ]
