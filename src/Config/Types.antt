-- ===== src/Config/Types.antt =====
-- pkg/config/config.go: the configuration's structures. A duration is its number of nanoseconds; a
-- float64, on which nothing is computed, is the decimal that is written.
use dgou_framework.Base.{ℕ, Bool, List, Str}
use dgou_framework.Base.Int.{ℤ}

-- `decimal n d` is n divided by the d-th power of ten
pub data Float : Type 0 where
  decimal : ℤ → ℕ → Float

pub record ServerConfig : Type 0 where
  pub port : ℤ
  pub mode : Str
  pub read_timeout : ℤ
  pub write_timeout : ℤ
  pub shutdown_timeout : ℤ
  pub enable_https : Bool
  pub cert_file : Str
  pub key_file : Str
  pub enable_gzip : Bool
  pub max_request_body : ℤ
  pub enable_pprof : Bool
  pub pprof_port : ℤ

pub record MySqlConfig : Type 0 where
  pub host : Str
  pub port : ℤ
  pub user : Str
  pub password : Str
  pub db_name : Str
  pub max_open_conns : ℤ
  pub max_idle_conns : ℤ
  pub charset : Str
  pub parse_time : Bool
  pub loc : Str

pub record MySqlPoolConfig : Type 0 where
  pub max_open_conns : ℤ
  pub max_idle_conns : ℤ
  pub conn_max_lifetime : ℤ
  pub conn_max_idle_time : ℤ

pub record MySqlLogConfig : Type 0 where
  pub slow_threshold : ℤ
  pub enable_logging : Bool
  pub log_level : Str

pub record MySqlPerformanceConfig : Type 0 where
  pub prepare_stmt : Bool
  pub disable_foreign_key : Bool

pub record MySqlConfigExt : Type 0 where
  pub master : MySqlConfig
  pub slaves : List MySqlConfig
  pub pool : MySqlPoolConfig
  pub log : MySqlLogConfig
  pub performance : MySqlPerformanceConfig

pub record RedisConfig : Type 0 where
  pub addr : Str
  pub password : Str
  pub db : ℤ
  pub pool_size : ℤ
  pub min_idle_conns : ℤ
  pub max_retries : ℤ
  pub dial_timeout : ℤ
  pub read_timeout : ℤ
  pub write_timeout : ℤ
  pub idle_timeout : ℤ

pub record RabbitMqSettings : Type 0 where
  pub url : Str
  pub host : Str
  pub port : ℤ
  pub username : Str
  pub password : Str
  pub vhost : Str
  pub exchange_name : Str
  pub exchange_type : Str
  pub queue_name : Str
  pub routing_key : Str
  pub durable : Bool
  pub auto_delete : Bool
  pub exclusive : Bool
  pub no_wait : Bool
  pub prefetch_count : ℤ
  pub prefetch_size : ℤ
  pub global_prefetch : Bool
  pub heartbeat : ℤ
  pub connection_timeout : ℤ

pub record QueueConfig : Type 0 where
  pub driver : Str
  pub rabbit_mq : RabbitMqSettings
  pub broker : Str
  pub buffer_size : ℤ
  pub worker_num : ℤ
  pub retry_times : ℤ

pub record UploadConfig : Type 0 where
  pub storage_type : Str
  pub base_path : Str
  pub base_url : Str
  pub max_file_size : ℤ
  pub allowed_types : List Str
  pub allowed_mime_types : List Str
  pub allowed_extensions : List Str
  pub chunk_enabled : Bool
  pub chunk_size : ℤ
  pub max_chunks : ℤ
  pub temp_dir : Str
  pub cleanup_interval : ℤ
  pub max_temp_file_age : ℤ
  pub enable_resumable : Bool
  pub enable_virus_scan : Bool
  pub enable_cdn : Bool
  pub cdn_url : Str
  pub access_key_id : Str
  pub access_key_secret : Str
  pub endpoint : Str
  pub bucket : Str
  pub region : Str
  pub use_https : Bool
  pub min_file_size : ℤ
  pub max_file_name_length : ℤ
  pub validate_virus : Bool
  pub scan_timeout : ℤ

pub record JwtConfig : Type 0 where
  pub secret : Str
  pub issuer : Str
  pub expire : ℤ
  pub refresh : ℤ
  pub audience : Str
  pub signing_key : Str
  pub algorithm : Str

pub record OssConfig : Type 0 where
  pub endpoint : Str
  pub access_key_id : Str
  pub access_key_secret : Str
  pub bucket_name : Str
  pub domain : Str
  pub region : Str
  pub use_https : Bool
  pub enable_cdn : Bool

pub record LogConfig : Type 0 where
  pub level : Str
  pub file : Str
  pub max_size : ℤ
  pub max_backups : ℤ
  pub max_age : ℤ
  pub compress : Bool
  pub add_caller : Bool
  pub add_stack : Bool
  pub json_format : Bool
  pub local_time : Bool

pub record MonitorConfig : Type 0 where
  pub enable_metrics : Bool
  pub metrics_path : Str
  pub enable_health : Bool
  pub health_path : Str
  pub enable_profiling : Bool
  pub profile_path : Str
  pub service_name : Str
  pub service_version : Str
  pub environment : Str
  pub enable_tracing : Bool
  pub jaeger_endpoint : Str
  pub trace_sampling_rate : Float
  pub enable_alerts : Bool
  pub alert_webhook_url : Str

pub record SecurityConfig : Type 0 where
  pub enable_rate_limit : Bool
  pub rate_limit : ℤ
  pub enable_cors : Bool
  pub enable_csrf : Bool
  pub csrf_secret : Str
  pub trusted_proxies : List Str
  pub enable_xss_filter : Bool
  pub enable_hsts : Bool
  pub enable_csp : Bool
  pub allowed_origins : List Str
  pub allowed_methods : List Str

pub record RateLimitConfig : Type 0 where
  pub enable_ip_limit : Bool
  pub enable_token_limit : Bool
  pub limit : ℤ
  pub window_seconds : ℤ
  pub redis_addr : Str
  pub redis_password : Str
  pub redis_db : ℤ
  pub fail_open : Bool

pub record AsyncConfig : Type 0 where
  pub max_workers : ℤ
  pub max_queue_size : ℤ
  pub worker_idle_time : ℤ
  pub enable_metrics : Bool
  pub task_retries : ℤ
  pub task_timeout : ℤ

pub record Config : Type 0 where
  pub server : ServerConfig
  pub my_sql : MySqlConfigExt
  pub redis : RedisConfig
  pub queue : QueueConfig
  pub upload : UploadConfig
  pub jwt : JwtConfig
  pub oss : OssConfig
  pub log : LogConfig
  pub monitor : MonitorConfig
  pub security : SecurityConfig
  pub async : AsyncConfig
  pub rate_limit : RateLimitConfig
