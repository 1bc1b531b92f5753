-- ===== src/Bootstrap/Settings.antt =====
-- pkg/bootstrap/bootstrap.go: what each component is given of the configuration. Durations are in
-- nanoseconds; a product with a unit wraps around at 64 bits.
use dgou_framework.Base.{ℕ, ◌*◌, Bool, List, [], ◌∷◌, Str}
use dgou_framework.Base.Int.{ℤ, pos, wrap64, scale}
use dgou_framework.Config.Types.{Config, MySqlConfig}
use dgou_framework.Database.Settings.{DsnConfig, DatabaseConfig}
use dgou_framework.Auth.Manager.{AuthConfig}
use dgou_framework.Upload.Local.{LocalConfig}
use dgou_framework.Upload.Manager.{UploadConfig}
use dgou_framework.Cache.Redis.{RedisConfig}
use dgou_framework.Queue.Rabbit.{RabbitConfig}

-- `logger.Config`
pub record LoggerConfig : Type 0 where
  pub level : Str
  pub file : Str
  pub max_size : ℤ
  pub max_backups : ℤ
  pub max_age : ℤ
  pub compress : Bool
  pub add_caller : Bool
  pub json_format : Bool

-- `upload.OSSConfig`
pub record OssSettings : Type 0 where
  pub endpoint : Str
  pub access_key_id : Str
  pub access_key_secret : Str
  pub bucket : Str
  pub region : Str
  pub use_https : Bool
  pub cdn_url : Str

-- `monitor.Config`
pub record MonitorSettings : Type 0 where
  pub service_name : Str
  pub service_version : Str
  pub environment : Str
  pub enable_metrics : Bool
  pub metrics_path : Str
  pub enable_health : Bool
  pub health_path : Str
  pub enable_profiling : Bool
  pub profile_path : Str

abbrev pub second : ℕ
second = 1000000000

abbrev hour : ℕ
hour = 3600 * second

abbrev pub times : ℤ → ℕ → ℤ
times n unit = wrap64 (scale unit n)

unfoldable pub logger_config : Config → LoggerConfig
logger_config cfg = record {
  level = cfg.log.level;
  file = cfg.log.file;
  max_size = cfg.log.max_size;
  max_backups = cfg.log.max_backups;
  max_age = cfg.log.max_age;
  compress = cfg.log.compress;
  add_caller = cfg.log.add_caller;
  json_format = cfg.log.json_format;
}

unfoldable pub dsn_config : MySqlConfig → DsnConfig
dsn_config s = record {
  host = s.host;
  port = s.port;
  user = s.user;
  password = s.password;
  db_name = s.db_name;
  charset = s.charset;
  parse_time = s.parse_time;
  loc = s.loc;
  max_open_conns = s.max_open_conns;
  max_idle_conns = s.max_idle_conns;
}

unfoldable pub dsn_configs : List MySqlConfig → List DsnConfig
unfolding dsn_config
dsn_configs [] = []
dsn_configs (s ∷ ss) = dsn_config s ∷ dsn_configs ss

unfoldable pub database_config : Config → DatabaseConfig
unfolding dsn_config dsn_configs
database_config cfg = record {
  master = dsn_config cfg.my_sql.master;
  slaves = dsn_configs cfg.my_sql.slaves;
  pool = record {
    max_open_conns = cfg.my_sql.pool.max_open_conns;
    max_idle_conns = cfg.my_sql.pool.max_idle_conns;
    conn_max_lifetime = cfg.my_sql.pool.conn_max_lifetime;
    conn_max_idle_time = cfg.my_sql.pool.conn_max_idle_time;
  };
  log = record {
    slow_threshold = cfg.my_sql.log.slow_threshold;
    enable_logging = cfg.my_sql.log.enable_logging;
    log_level = cfg.my_sql.log.log_level;
  };
  performance = record {
    prepare_stmt = cfg.my_sql.performance.prepare_stmt;
    disable_foreign_key = cfg.my_sql.performance.disable_foreign_key;
  };
}

unfoldable pub redis_config : Config → RedisConfig
redis_config cfg = record {
  addr = cfg.redis.addr;
  password = cfg.redis.password;
  db = cfg.redis.db;
  pool_size = cfg.redis.pool_size;
  min_idle_conns = cfg.redis.min_idle_conns;
  max_retries = cfg.redis.max_retries;
  dial_timeout = times cfg.redis.dial_timeout second;
  read_timeout = times cfg.redis.read_timeout second;
  write_timeout = times cfg.redis.write_timeout second;
}

unfoldable pub auth_config : Config → AuthConfig
auth_config cfg = record {
  secret = cfg.jwt.secret;
  issuer = cfg.jwt.issuer;
  access_ttl = times cfg.jwt.expire hour;
  refresh_ttl = times cfg.jwt.refresh hour;
}

unfoldable pub local_config : Config → LocalConfig
local_config cfg = record {
  base_path = cfg.upload.base_path;
  base_url = cfg.upload.base_url;
  cdn_url = cfg.upload.cdn_url;
}

unfoldable pub oss_config : Config → OssSettings
oss_config cfg = record {
  endpoint = cfg.upload.endpoint;
  access_key_id = cfg.upload.access_key_id;
  access_key_secret = cfg.upload.access_key_secret;
  bucket = cfg.upload.bucket;
  region = cfg.upload.region;
  use_https = cfg.upload.use_https;
  cdn_url = cfg.upload.cdn_url;
}

unfoldable pub upload_config : Config → UploadConfig
upload_config cfg = record {
  max_file_size = cfg.upload.max_file_size;
  allowed_exts = cfg.upload.allowed_extensions;
  allowed_mimes = cfg.upload.allowed_mime_types;
}

unfoldable pub monitor_config : Config → MonitorSettings
monitor_config cfg = record {
  service_name = cfg.monitor.service_name;
  service_version = cfg.monitor.service_version;
  environment = cfg.monitor.environment;
  enable_metrics = cfg.monitor.enable_metrics;
  metrics_path = cfg.monitor.metrics_path;
  enable_health = cfg.monitor.enable_health;
  health_path = cfg.monitor.health_path;
  enable_profiling = cfg.monitor.enable_profiling;
  profile_path = cfg.monitor.profile_path;
}

unfoldable pub rabbit_config : Config → RabbitConfig
rabbit_config cfg = record {
  url = cfg.queue.rabbit_mq.url;
  host = cfg.queue.rabbit_mq.host;
  port = cfg.queue.rabbit_mq.port;
  username = cfg.queue.rabbit_mq.username;
  password = cfg.queue.rabbit_mq.password;
  vhost = cfg.queue.rabbit_mq.vhost;
  heartbeat = cfg.queue.rabbit_mq.heartbeat;
  dial_timeout = times cfg.queue.rabbit_mq.connection_timeout second;
  max_retries = pos 5;
  retry_delay = pos (5 * second);
  prefetch_count = cfg.queue.rabbit_mq.prefetch_count;
  prefetch_size = cfg.queue.rabbit_mq.prefetch_size;
  global_prefetch = cfg.queue.rabbit_mq.global_prefetch;
}
