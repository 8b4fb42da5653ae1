-- ===== src/Config/Validation.antt =====
-- internal/config/validation_methods.go: Config.Validate. An error is kept as the check that it came
-- from, without the value and the text. url.Parse and strings.EqualFold are parameters.
pub mod Accepted
pub mod Whole
use golang_helloworld.Prelude.{
  Bool, List, Option, [], false, gather, if◌then◌else◌, none, not, some, true, ℕ, ◌&&◌, ◌*◌, ◌/◌,
  ◌||◌, ◌∷◌,
}
use golang_helloworld.Text.{Str, bytes, str_eq}
use golang_helloworld.Text.Decimal.{atoi, ℤ}
use golang_helloworld.Domain.{above, below}
use golang_helloworld.Domain.Request.{seen_in}
use golang_helloworld.Config.{Config, LoggingConfig, ServerConfig}
use golang_helloworld.Config.Bucket.{is_valid_bucket_name, is_valid_gcs_bucket_name}

pub data ValidationError : Type 0 where
  port_empty port_not_integer port_out_of_range environment_unknown : ValidationError
  database_url_missing database_url_malformed database_url_scheme : ValidationError
  database_url_host database_url_name : ValidationError
  provider_unknown endpoint_empty bucket_name_empty bucket_name_invalid : ValidationError
  minioadmin_key minioadmin_secret upload_size_too_large : ValidationError
  level_unknown format_unknown : ValidationError
  read_timeout_not_positive read_timeout_too_long : ValidationError
  write_timeout_not_positive write_timeout_too_long idle_timeout_not_positive : ValidationError

-- if bad { errors = append(errors, e) }
abbrev pub complain_if : Bool → ValidationError → List ValidationError
complain_if true e = e ∷ []
complain_if false e = []

-- if bad { errors = append(errors, e) } else { … }
abbrev pub complain_or : Bool → ValidationError → List ValidationError → List ValidationError
complain_or true e rest = e ∷ []
complain_or false e rest = rest

abbrev pub check_port_value : Option ℤ → List ValidationError
check_port_value none = port_not_integer ∷ []
check_port_value (some port) = complain_if (below port 1 || above port 65535) port_out_of_range

abbrev pub check_port : Str → List ValidationError
check_port port = complain_or (str_eq port []) port_empty (check_port_value (atoi port))

abbrev pub valid_environment : Str → Bool
valid_environment env =
    seen_in env (bytes "development" ∷ bytes "production" ∷ bytes "test" ∷ bytes "staging" ∷ [])

abbrev pub check_environment : Str → List ValidationError
check_environment env =
    complain_if (not (str_eq env []) && not (valid_environment env)) environment_unknown

unfoldable pub validate_server : Config → List ValidationError
validate_server c = gather (check_port c.port ∷ check_environment c.environment ∷ [])

-- What url.Parse gives.
pub record Url : Type 0 where
  pub scheme : Str
  pub url_host : Str
  pub path : Str

abbrev pub check_url : Option Url → List ValidationError
check_url none = database_url_malformed ∷ []
check_url (some u) = gather (
    complain_if
      (not (str_eq u.scheme (bytes "postgres")) && not (str_eq u.scheme (bytes "postgresql")))
      database_url_scheme
    ∷ complain_if (str_eq u.url_host []) database_url_host
    ∷ complain_if (str_eq u.path [] || str_eq u.path (bytes "/")) database_url_name
    ∷ [])

unfoldable pub bucket_name_refused : Str → Str → Bool
bucket_name_refused provider name =
    if str_eq provider (bytes "gcs")
    then not (is_valid_gcs_bucket_name name)
    else not (is_valid_bucket_name name)

abbrev pub known_provider : Str → Bool
known_provider provider = seen_in provider ([] ∷ bytes "s3" ∷ bytes "gcs" ∷ [])

abbrev pub check_credentials : Config → List ValidationError
check_credentials c =
    if str_eq c.environment (bytes "production")
    then gather (
        complain_if (str_eq c.storage.access_key_id (bytes "minioadmin")) minioadmin_key
        ∷ complain_if (str_eq c.storage.secret_access_key (bytes "minioadmin")) minioadmin_secret
        ∷ [])
    else []

abbrev pub check_upload_size_limit : ℤ → List ValidationError
check_upload_size_limit size =
    complain_if (above size 0 && above size (100 * 1024 * 1024)) upload_size_too_large

abbrev pub validate_storage_credentials_and_limits : Config → List ValidationError
validate_storage_credentials_and_limits c =
    gather (check_credentials c ∷ check_upload_size_limit c.storage.max_upload_size ∷ [])

unfoldable pub validate_storage : Config → List ValidationError
validate_storage c = gather (
    complain_if (not (known_provider c.storage.provider)) provider_unknown
    ∷ complain_if (not (str_eq c.storage.provider (bytes "gcs")) && str_eq c.storage.endpoint [])
        endpoint_empty
    ∷ complain_or (str_eq c.storage.bucket_name []) bucket_name_empty (
        complain_if (bucket_name_refused c.storage.provider c.storage.bucket_name)
          bucket_name_invalid)
    ∷ validate_storage_credentials_and_limits c
    ∷ [])

abbrev pub five_minutes : ℕ
five_minutes = 5 * 60 * 1_000_000_000

abbrev pub check_timeout : ℤ → ValidationError → ValidationError → List ValidationError
check_timeout t low high = complain_or (below t 1) low (complain_if (above t five_minutes) high)

unfoldable pub validate_server_timeouts : ServerConfig → List ValidationError
validate_server_timeouts s = gather (
    check_timeout s.read_timeout read_timeout_not_positive read_timeout_too_long
    ∷ check_timeout s.write_timeout write_timeout_not_positive write_timeout_too_long
    ∷ complain_if (below s.idle_timeout 1) idle_timeout_not_positive
    ∷ [])

abbrev pub if_present {ℓ} :
    {A : Type ℓ} → (A → List ValidationError) → Option A → List ValidationError
if_present check none = []
if_present check (some a) = check a

module _ (parse_url : Str → Option Url) where
  unfoldable pub validate_database : Config → List ValidationError
  validate_database c =
      complain_or (not (str_eq c.environment (bytes "test")) && str_eq c.database_url [])
        database_url_missing
        (if str_eq c.database_url [] then [] else check_url (parse_url c.database_url))

module _ (equal_fold : Str → Str → Bool) where
  abbrev pub folds_to : Str → List Str → Bool
  folds_to s [] = false
  folds_to s (t ∷ ts) = equal_fold s t || folds_to s ts

  abbrev pub valid_level : Str → Bool
  valid_level level =
      folds_to level (bytes "debug" ∷ bytes "info" ∷ bytes "warn" ∷ bytes "error" ∷ [])

  abbrev pub valid_format : Str → Bool
  valid_format format = folds_to format (bytes "json" ∷ bytes "text" ∷ [])

  unfoldable pub validate_logging : LoggingConfig → List ValidationError
  validate_logging l = gather (
      complain_if (not (valid_level l.level)) level_unknown
      ∷ complain_if (not (valid_format l.format)) format_unknown
      ∷ [])

module _ (parse_url : Str → Option Url) (equal_fold : Str → Str → Bool) where
  unfoldable pub validate : Config → List ValidationError
  validate c = gather (
      validate_server c
      ∷ validate_database parse_url c
      ∷ validate_storage c
      ∷ if_present (validate_logging equal_fold) c.logging
      ∷ if_present validate_server_timeouts c.server
      ∷ [])
