-- ===== src/Config/Loading.antt =====
-- internal/config/config.go: Load reads every setting from the environment, and validates the whole.
use golang_helloworld.Prelude.{
  Bool, List, Option, [], ap, false, iff_trans, inl, inr, refl, some, subst, sym, true, ℕ, ◌*◌, ◌↔◌,
  ◌∷◌, ◌≡◌, ◌⊎◌,
}
use golang_helloworld.Text.{Str, bytes}
use golang_helloworld.Text.Decimal.{pos, ℤ}
use golang_helloworld.Config.{CacheConfig, Config, ObservabilityConfig, StorageConfig}
use golang_helloworld.Config.Validation.{Url, ValidationError, validate}
use golang_helloworld.Config.Validation.Whole.{IsConfig, validate-IsConfig}
use golang_helloworld.Config.Parsing.{
  get_env, or_default, parse_int_or_default, parse_list, parse_size,
}

abbrev pub seconds : ℕ → ℤ
seconds n = pos (n * 1_000_000_000)

abbrev pub milliseconds : ℕ → ℤ
milliseconds n = pos (n * 1_000_000)

-- The functions of the standard library that Load calls.
pub record Library : Type 0 where
  pub environ : Str → Str
  pub trim_space : Str → Str
  pub to_upper : Str → Str
  pub parse_bool : Str → Option Bool
  pub parse_duration : Str → Option ℤ
  pub parse_url : Str → Option Url
  pub equal_fold : Str → Str → Bool

module _ (lib : Library) where
  abbrev env : Str → Str → Str
  env key default_value = get_env lib.environ key default_value

  abbrev bool_at : Str → Str → Bool → Bool
  bool_at key value d = or_default (lib.parse_bool (env key value)) d

  abbrev int_at : Str → Str → ℤ → ℤ
  int_at key value d = parse_int_or_default (env key value) d

  abbrev duration_at : Str → Str → ℤ → ℤ
  duration_at key value d = or_default (lib.parse_duration (env key value)) d

  abbrev pub storage_config : StorageConfig
  unfolding parse_size parse_list
  storage_config = record {
    provider = env (bytes "STORAGE_PROVIDER") (bytes "s3");
    endpoint = env (bytes "STORAGE_ENDPOINT") (bytes "localhost:9000");
    access_key_id = env (bytes "STORAGE_ACCESS_KEY") [];
    secret_access_key = env (bytes "STORAGE_SECRET_KEY") [];
    bucket_name = env (bytes "STORAGE_BUCKET") (bytes "images");
    use_ssl = bool_at (bytes "STORAGE_USE_SSL") (bytes "false") false;
    region = env (bytes "STORAGE_REGION") (bytes "us-east-1");
    max_upload_size =
        parse_size lib.trim_space lib.to_upper (env (bytes "MAX_UPLOAD_SIZE") (bytes "10MB"));
    allowed_types =
        parse_list lib.trim_space
          (env (bytes "ALLOWED_FILE_TYPES") (bytes "image/jpeg,image/png,image/gif,image/webp"));
    sync_on_startup = bool_at (bytes "STORAGE_SYNC_ON_STARTUP") (bytes "false") false;
  }

  abbrev pub cache_config : CacheConfig
  cache_config = record {
    enabled = bool_at (bytes "CACHE_ENABLED") (bytes "true") true;
    address = env (bytes "CACHE_ADDRESS") (bytes "localhost:6379");
    password = env (bytes "CACHE_PASSWORD") [];
    database = int_at (bytes "CACHE_DATABASE") (bytes "0") (pos 0);
    max_retries = int_at (bytes "CACHE_MAX_RETRIES") (bytes "3") (pos 3);
    min_retry_backoff =
        duration_at (bytes "CACHE_MIN_RETRY_BACKOFF") (bytes "8ms") (milliseconds 8);
    max_retry_backoff =
        duration_at (bytes "CACHE_MAX_RETRY_BACKOFF") (bytes "512ms") (milliseconds 512);
    dial_timeout = duration_at (bytes "CACHE_DIAL_TIMEOUT") (bytes "5s") (seconds 5);
    cache_read_timeout = duration_at (bytes "CACHE_READ_TIMEOUT") (bytes "3s") (seconds 3);
    cache_write_timeout = duration_at (bytes "CACHE_WRITE_TIMEOUT") (bytes "3s") (seconds 3);
    pool_size = int_at (bytes "CACHE_POOL_SIZE") (bytes "10") (pos 10);
    min_idle_conns = int_at (bytes "CACHE_MIN_IDLE_CONNS") (bytes "5") (pos 5);
    max_idle_conns = int_at (bytes "CACHE_MAX_IDLE_CONNS") (bytes "10") (pos 10);
    max_conn_age = duration_at (bytes "CACHE_MAX_CONN_AGE") (bytes "30m") (seconds (30 * 60));
    pool_timeout = duration_at (bytes "CACHE_POOL_TIMEOUT") (bytes "4s") (seconds 4);
    cache_idle_timeout = duration_at (bytes "CACHE_IDLE_TIMEOUT") (bytes "5m") (seconds (5 * 60));
    default_ttl = duration_at (bytes "CACHE_DEFAULT_TTL") (bytes "1h") (seconds (60 * 60));
  }

  abbrev pub observability_config : ObservabilityConfig
  observability_config = record {
    service_name = env (bytes "OTEL_SERVICE_NAME") (bytes "image-gallery");
    service_version = env (bytes "OTEL_SERVICE_VERSION") [];
    deployment =
        env (bytes "OTEL_DEPLOYMENT_ENVIRONMENT") (env (bytes "GO_ENV") (bytes "development"));
    pod_name = env (bytes "POD_NAME") [];
    pod_namespace = env (bytes "POD_NAMESPACE") [];
    traces_endpoint = env (bytes "OTEL_EXPORTER_OTLP_TRACES_ENDPOINT") (bytes "localhost:4318");
    traces_enabled = bool_at (bytes "OTEL_TRACES_ENABLED") (bytes "true") true;
    traces_sampler = env (bytes "OTEL_TRACES_SAMPLER") (bytes "always_on");
    traces_sampler_arg = env (bytes "OTEL_TRACES_SAMPLER_ARG") (bytes "1.0");
    metrics_endpoint = env (bytes "OTEL_EXPORTER_OTLP_METRICS_ENDPOINT") (bytes "localhost:4318");
    metrics_enabled = bool_at (bytes "OTEL_METRICS_ENABLED") (bytes "true") true;
  }

  unfoldable pub config_from_environment : Config
  unfolding storage_config
  config_from_environment = record {
    environment = env (bytes "GO_ENV") (bytes "development");
    port = env (bytes "PORT") (bytes "8080");
    host = env (bytes "HOST") (bytes "localhost");
    database_url = env (bytes "DATABASE_URL") [];
    storage = storage_config;
    cache = cache_config;
    logging = some (record {
      level = env (bytes "LOG_LEVEL") (bytes "info");
      format = env (bytes "LOG_FORMAT") (bytes "json");
      output = env (bytes "LOG_OUTPUT") (bytes "stdout");
    });
    server = some (record {
      read_timeout = duration_at (bytes "READ_TIMEOUT") (bytes "10s") (seconds 10);
      write_timeout = duration_at (bytes "WRITE_TIMEOUT") (bytes "10s") (seconds 10);
      idle_timeout = duration_at (bytes "SERVER_TIMEOUT") (bytes "30s") (seconds 30);
    });
    observability = observability_config;
    demo_controls_enabled = bool_at (bytes "DEMO_CONTROLS_ENABLED") (bytes "true") true;
  }

  abbrev pub checked : Config → List ValidationError → List ValidationError ⊎ Config
  checked c [] = inr c
  checked c (e ∷ es) = inl (e ∷ es)

  unfoldable pub load : List ValidationError ⊎ Config
  load =
      checked config_from_environment
        (validate lib.parse_url lib.equal_fold config_from_environment)

  checked_iff :
      (c d : Config) (es : List ValidationError) → (checked c es ≡ inr d) ↔ ((c ≡ d) × (es ≡ []))
  checked_iff c d [] = (λ h. (cc h, refl), λ h. ap inr h.0)
  checked_iff c d (e ∷ es) = (λ h. absurd (cc h), λ h. absurd (cc (h.1)))

  -- What Load hands out is what the environment says, and fits: it succeeds with a configuration
  -- just when that is the one read from the environment and `IsConfig` holds of it.
  pub load-IsConfig :
      (c : Config)
      → (load ≡ inr c) ↔ ((config_from_environment ≡ c) × IsConfig lib.parse_url lib.equal_fold c)
  unfolding load
  load-IsConfig c =
      let read = config_from_environment in
      iff_trans (checked_iff read c (validate lib.parse_url lib.equal_fold read)) (
        λ (e, valid). (
          e,
          subst (IsConfig lib.parse_url lib.equal_fold) e
              ((validate-IsConfig lib.parse_url lib.equal_fold read).0 valid),
        ),
        λ (e, fits). (
          e,
          (validate-IsConfig lib.parse_url lib.equal_fold read).1
              (subst (IsConfig lib.parse_url lib.equal_fold) (sym e) fits),
        ),
      )
