-- ===== src/Config.antt =====
-- internal/config/config.go: the configuration of the process and of one instance.
pub mod Limits
pub mod Env
pub mod Load
mod Tests
use wsapi_app.Common.{ℤ, pos, Bool, true, String, Option, none, List, []}

pub record ServerConfig : Type 0 where
  pub port : ℤ
  pub read_timeout : String
  pub write_timeout : String
  pub shutdown_timeout : String

pub record DatabaseConfig : Type 0 where
  pub driver : String
  pub dsn : String

pub record WhatsmeowConfig : Type 0 where
  pub log_level : String
  pub pair_client_type : String
  pub pair_client_os : String
  pub max_parallel_retry_receipts : ℤ

pub record AuthConfig : Type 0 where
  pub admin_api_key : String

pub record LoggingConfig : Type 0 where
  pub level : String
  pub format : String
  pub redact_pii : Bool

-- `none` is a nil pointer.
pub record InstanceConfig : Type 0 where
  pub api_key : String
  pub webhook_url : String
  pub signing_secret : String
  pub event_filters : List String
  pub history_sync : Option Bool
  pub publish_events : Option Bool

pub record RedisConfig : Type 0 where
  pub mode : String
  pub url : String
  pub password : String
  pub db : ℤ
  pub stream_name : String
  pub tls : Bool
  pub tls_insecure : Bool
  pub master_name : String
  pub sentinel_password : String
  pub max_retries : ℤ
  pub pool_size : ℤ
  pub min_idle_conns : ℤ
  pub max_idle_conns : ℤ
  pub conn_max_idle_time : String
  pub conn_max_lifetime : String

pub record Config : Type 0 where
  pub server : ServerConfig
  pub database : DatabaseConfig
  pub whatsmeow : WhatsmeowConfig
  pub auth : AuthConfig
  pub logging : LoggingConfig
  pub instance_mode : String
  pub events_publish_via : String
  pub instance_defaults : InstanceConfig
  pub http_proxy : String
  pub media_max_file_size : String
  pub media_max_concurrent_downloads : ℤ
  pub redis : Option RedisConfig

-- `defaults`
unfoldable pub defaults : Config
defaults = record {
  server = record {
    port = pos 8080;
    read_timeout = "30s";
    write_timeout = "90s";
    shutdown_timeout = "10s";
  };
  database = record { driver = "sqlite"; dsn = "./data/wsapi.db" };
  whatsmeow = record {
    log_level = "warn";
    pair_client_type = "chrome";
    pair_client_os = "Windows";
    max_parallel_retry_receipts = pos 0;
  };
  auth = record { admin_api_key = "" };
  logging = record { level = "info"; format = "text"; redact_pii = true };
  instance_mode = "single";
  events_publish_via = "webhook";
  instance_defaults = record {
    api_key = "";
    webhook_url = "";
    signing_secret = "";
    event_filters = [];
    history_sync = none;
    publish_events = none;
  };
  http_proxy = "";
  media_max_file_size = "100MB";
  media_max_concurrent_downloads = pos 2;
  redis = none;
}
