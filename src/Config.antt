-- ===== src/Config.antt =====
-- internal/config: the settings that the program starts with. A duration is a count of nanoseconds.
pub mod Bucket
pub mod Validation
pub mod Parsing
pub mod Loading
use golang_helloworld.Prelude.{Bool, List, Option}
use golang_helloworld.Text.{Str}
use golang_helloworld.Text.Decimal.{ℤ}

pub record StorageConfig : Type 0 where
  pub provider : Str
  pub endpoint : Str
  pub access_key_id : Str
  pub secret_access_key : Str
  pub bucket_name : Str
  pub use_ssl : Bool
  pub region : Str
  pub max_upload_size : ℤ
  pub allowed_types : List Str
  pub sync_on_startup : Bool

pub record CacheConfig : Type 0 where
  pub enabled : Bool
  pub address : Str
  pub password : Str
  pub database : ℤ
  pub max_retries : ℤ
  pub min_retry_backoff : ℤ
  pub max_retry_backoff : ℤ
  pub dial_timeout : ℤ
  pub cache_read_timeout : ℤ
  pub cache_write_timeout : ℤ
  pub pool_size : ℤ
  pub min_idle_conns : ℤ
  pub max_idle_conns : ℤ
  pub max_conn_age : ℤ
  pub pool_timeout : ℤ
  pub cache_idle_timeout : ℤ
  pub default_ttl : ℤ

pub record LoggingConfig : Type 0 where
  pub level : Str
  pub format : Str
  pub output : Str

pub record ServerConfig : Type 0 where
  pub read_timeout : ℤ
  pub write_timeout : ℤ
  pub idle_timeout : ℤ

pub record ObservabilityConfig : Type 0 where
  pub service_name : Str
  pub service_version : Str
  pub deployment : Str
  pub pod_name : Str
  pub pod_namespace : Str
  pub traces_endpoint : Str
  pub traces_enabled : Bool
  pub traces_sampler : Str
  pub traces_sampler_arg : Str
  pub metrics_endpoint : Str
  pub metrics_enabled : Bool

pub record Config : Type 0 where
  pub environment : Str
  pub port : Str
  pub host : Str
  pub database_url : Str
  pub storage : StorageConfig
  pub cache : CacheConfig
  pub logging : Option LoggingConfig
  pub server : Option ServerConfig
  pub observability : ObservabilityConfig
  pub demo_controls_enabled : Bool
