-- ===== src/Tests/Config.antt =====
-- internal/config: runs at concrete inputs, and instances of the theorems.
use golang_helloworld.Prelude.{[], false, none, refl, true, ◌↔◌, ◌∷◌, ◌≡◌}
use golang_helloworld.Text.{bytes, str_eq}
use golang_helloworld.Text.Search.{contains, split, without_suffix}
use golang_helloworld.Text.Decimal.{atoi, pos}
use golang_helloworld.Config.Bucket.{
  IsBucketName, bucket_characters_from, is_valid_bucket_name, is_valid_bucket_name-IsBucketName,
  is_valid_gcs_bucket_name,
}
use golang_helloworld.Config.Validation.{
  bucket_name_refused, database_url_missing, validate, validate_database, validate_logging,
  validate_server, validate_server_timeouts, validate_storage,
}
use golang_helloworld.Config.Validation.Whole.{IsConfig, validate-IsConfig}
use golang_helloworld.Config.Parsing.{parse_size, parse_upper_size}
use golang_helloworld.Config.Loading.{Library, config_from_environment}

address_refused : is_valid_bucket_name (bytes "10.0.0.1") ≡ false
unfolding is_valid_bucket_name bucket_characters_from
address_refused = refl

google_refused : is_valid_gcs_bucket_name (bytes "my-google-bucket") ≡ false
unfolding is_valid_gcs_bucket_name contains split atoi
google_refused = refl

is_valid_bucket_name-IsBucketName_example :
    (is_valid_bucket_name (bytes "my-images") ≡ true) ↔ IsBucketName (bytes "my-images")
is_valid_bucket_name-IsBucketName_example = is_valid_bucket_name-IsBucketName (bytes "my-images")

-- An environment where nothing is set, and libraries that change nothing.
abbrev nothing_set : Library
nothing_set = record {
  environ = λ key. [];
  trim_space = λ s. s;
  to_upper = λ s. s;
  parse_bool = λ s. none;
  parse_duration = λ s. none;
  parse_url = λ s. none;
  equal_fold = str_eq;
}

-- Without a database the development environment does not start.
database_needed :
    validate nothing_set.parse_url nothing_set.equal_fold (config_from_environment nothing_set)
    ≡ database_url_missing ∷ []
unfolding config_from_environment validate validate_server validate_database validate_storage
    validate_logging validate_server_timeouts bucket_name_refused is_valid_bucket_name
    bucket_characters_from str_eq atoi split parse_size parse_upper_size without_suffix
database_needed = refl

validate-IsConfig_example :
    (validate (λ s. none) str_eq (config_from_environment nothing_set) ≡ [])
    ↔ IsConfig (λ s. none) str_eq (config_from_environment nothing_set)
validate-IsConfig_example =
    validate-IsConfig (λ s. none) str_eq (config_from_environment nothing_set)

-- Ten megabytes, and an overflow that wraps to no limit at all.
ten_megabytes : parse_upper_size (bytes "10MB") ≡ pos 10_485_760
unfolding parse_upper_size without_suffix str_eq atoi
ten_megabytes = refl

wrapped_size : parse_upper_size (bytes "17592186044416MB") ≡ pos 0
unfolding parse_upper_size without_suffix str_eq atoi
wrapped_size = refl
