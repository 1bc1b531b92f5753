-- ===== src/Config/Decode.antt =====
-- The decoding of settings into the configuration: the keys are the `mapstructure` tags, joined by
-- dots. What no setting is given for keeps its zero value. Only settings of the field's own kind are
-- decoded here; the conversions of mapstructure are not needed for the defaults.
use dgou_framework.Base.{Bool, false, Option, some, List, [], Str, codes}
use dgou_framework.Base.Int.{ℤ, pos}
use dgou_framework.Config.Types.{
  Float, decimal, AsyncConfig, Config, JwtConfig, LogConfig, MonitorConfig, MySqlConfig,
  MySqlConfigExt, MySqlLogConfig, MySqlPerformanceConfig, MySqlPoolConfig, OssConfig, QueueConfig,
  RabbitMqSettings, RateLimitConfig, RedisConfig, SecurityConfig, ServerConfig, UploadConfig,
}

-- a value of a setting
pub data Setting : Type 0 where
  int : ℤ → Setting
  str : Str → Setting
  bool : Bool → Setting
  strs : List Str → Setting
  float : Float → Setting

abbrev int_of : Option Setting → ℤ
int_of (some (int n)) = n
int_of _ = pos 0

abbrev str_of : Option Setting → Str
str_of (some (str s)) = s
str_of _ = []

abbrev bool_of : Option Setting → Bool
bool_of (some (bool b)) = b
bool_of _ = false

abbrev strs_of : Option Setting → List Str
strs_of (some (strs l)) = l
strs_of _ = []

abbrev float_of : Option Setting → Float
float_of (some (float x)) = x
float_of _ = decimal (pos 0) 0

unfoldable pub decode_server : (Str → Option Setting) → ServerConfig
decode_server get = record {
  port = int_of (get (codes "server.port"));
  mode = str_of (get (codes "server.mode"));
  read_timeout = int_of (get (codes "server.read_timeout"));
  write_timeout = int_of (get (codes "server.write_timeout"));
  shutdown_timeout = int_of (get (codes "server.shutdown_timeout"));
  enable_https = bool_of (get (codes "server.enable_https"));
  cert_file = str_of (get (codes "server.cert_file"));
  key_file = str_of (get (codes "server.key_file"));
  enable_gzip = bool_of (get (codes "server.enable_gzip"));
  max_request_body = int_of (get (codes "server.max_request_body"));
  enable_pprof = bool_of (get (codes "server.enable_pprof"));
  pprof_port = int_of (get (codes "server.pprof_port"));
}

unfoldable decode_mysql_master : (Str → Option Setting) → MySqlConfig
decode_mysql_master get = record {
  host = str_of (get (codes "mysql.master.host"));
  port = int_of (get (codes "mysql.master.port"));
  user = str_of (get (codes "mysql.master.user"));
  password = str_of (get (codes "mysql.master.password"));
  db_name = str_of (get (codes "mysql.master.dbname"));
  max_open_conns = int_of (get (codes "mysql.master.max_open_conns"));
  max_idle_conns = int_of (get (codes "mysql.master.max_idle_conns"));
  charset = str_of (get (codes "mysql.master.charset"));
  parse_time = bool_of (get (codes "mysql.master.parse_time"));
  loc = str_of (get (codes "mysql.master.loc"));
}

unfoldable decode_mysql_pool : (Str → Option Setting) → MySqlPoolConfig
decode_mysql_pool get = record {
  max_open_conns = int_of (get (codes "mysql.pool.max_open_conns"));
  max_idle_conns = int_of (get (codes "mysql.pool.max_idle_conns"));
  conn_max_lifetime = int_of (get (codes "mysql.pool.conn_max_lifetime"));
  conn_max_idle_time = int_of (get (codes "mysql.pool.conn_max_idle_time"));
}

unfoldable decode_mysql_log : (Str → Option Setting) → MySqlLogConfig
decode_mysql_log get = record {
  slow_threshold = int_of (get (codes "mysql.log.slow_threshold"));
  enable_logging = bool_of (get (codes "mysql.log.enable_logging"));
  log_level = str_of (get (codes "mysql.log.log_level"));
}

unfoldable decode_mysql_performance : (Str → Option Setting) → MySqlPerformanceConfig
decode_mysql_performance get = record {
  prepare_stmt = bool_of (get (codes "mysql.performance.prepare_stmt"));
  disable_foreign_key = bool_of (get (codes "mysql.performance.disable_foreign_key"));
}

unfoldable decode_mysql : (Str → Option Setting) → MySqlConfigExt
decode_mysql get = record {
  master = decode_mysql_master get;
  slaves = [];
  pool = decode_mysql_pool get;
  log = decode_mysql_log get;
  performance = decode_mysql_performance get;
}

unfoldable decode_redis : (Str → Option Setting) → RedisConfig
decode_redis get = record {
  addr = str_of (get (codes "redis.addr"));
  password = str_of (get (codes "redis.password"));
  db = int_of (get (codes "redis.db"));
  pool_size = int_of (get (codes "redis.pool_size"));
  min_idle_conns = int_of (get (codes "redis.min_idle_conns"));
  max_retries = int_of (get (codes "redis.max_retries"));
  dial_timeout = int_of (get (codes "redis.dial_timeout"));
  read_timeout = int_of (get (codes "redis.read_timeout"));
  write_timeout = int_of (get (codes "redis.write_timeout"));
  idle_timeout = int_of (get (codes "redis.idle_timeout"));
}

unfoldable decode_queue_rabbitmq : (Str → Option Setting) → RabbitMqSettings
decode_queue_rabbitmq get = record {
  url = str_of (get (codes "queue.rabbitmq.url"));
  host = str_of (get (codes "queue.rabbitmq.host"));
  port = int_of (get (codes "queue.rabbitmq.port"));
  username = str_of (get (codes "queue.rabbitmq.username"));
  password = str_of (get (codes "queue.rabbitmq.password"));
  vhost = str_of (get (codes "queue.rabbitmq.vhost"));
  exchange_name = str_of (get (codes "queue.rabbitmq.exchange_name"));
  exchange_type = str_of (get (codes "queue.rabbitmq.exchange_type"));
  queue_name = str_of (get (codes "queue.rabbitmq.queue_name"));
  routing_key = str_of (get (codes "queue.rabbitmq.routing_key"));
  durable = bool_of (get (codes "queue.rabbitmq.durable"));
  auto_delete = bool_of (get (codes "queue.rabbitmq.auto_delete"));
  exclusive = bool_of (get (codes "queue.rabbitmq.exclusive"));
  no_wait = bool_of (get (codes "queue.rabbitmq.no_wait"));
  prefetch_count = int_of (get (codes "queue.rabbitmq.prefetch_count"));
  prefetch_size = int_of (get (codes "queue.rabbitmq.prefetch_size"));
  global_prefetch = bool_of (get (codes "queue.rabbitmq.global_prefetch"));
  heartbeat = int_of (get (codes "queue.rabbitmq.heartbeat"));
  connection_timeout = int_of (get (codes "queue.rabbitmq.connection_timeout"));
}

unfoldable pub decode_queue : (Str → Option Setting) → QueueConfig
unfolding decode_queue_rabbitmq
decode_queue get = record {
  driver = str_of (get (codes "queue.driver"));
  rabbit_mq = decode_queue_rabbitmq get;
  broker = str_of (get (codes "queue.broker"));
  buffer_size = int_of (get (codes "queue.buffer_size"));
  worker_num = int_of (get (codes "queue.worker_num"));
  retry_times = int_of (get (codes "queue.retry_times"));
}

unfoldable pub decode_upload : (Str → Option Setting) → UploadConfig
decode_upload get = record {
  storage_type = str_of (get (codes "upload.storage_type"));
  base_path = str_of (get (codes "upload.base_path"));
  base_url = str_of (get (codes "upload.base_url"));
  max_file_size = int_of (get (codes "upload.max_file_size"));
  allowed_types = strs_of (get (codes "upload.allowed_types"));
  allowed_mime_types = strs_of (get (codes "upload.allowed_mime_types"));
  allowed_extensions = strs_of (get (codes "upload.allowed_extensions"));
  chunk_enabled = bool_of (get (codes "upload.chunk_enabled"));
  chunk_size = int_of (get (codes "upload.chunk_size"));
  max_chunks = int_of (get (codes "upload.max_chunks"));
  temp_dir = str_of (get (codes "upload.temp_dir"));
  cleanup_interval = int_of (get (codes "upload.cleanup_interval"));
  max_temp_file_age = int_of (get (codes "upload.max_temp_file_age"));
  enable_resumable = bool_of (get (codes "upload.enable_resumable"));
  enable_virus_scan = bool_of (get (codes "upload.enable_virus_scan"));
  enable_cdn = bool_of (get (codes "upload.enable_cdn"));
  cdn_url = str_of (get (codes "upload.cdn_url"));
  access_key_id = str_of (get (codes "upload.access_key_id"));
  access_key_secret = str_of (get (codes "upload.access_key_secret"));
  endpoint = str_of (get (codes "upload.endpoint"));
  bucket = str_of (get (codes "upload.bucket"));
  region = str_of (get (codes "upload.region"));
  use_https = bool_of (get (codes "upload.use_https"));
  min_file_size = int_of (get (codes "upload.min_file_size"));
  max_file_name_length = int_of (get (codes "upload.max_file_name_length"));
  validate_virus = bool_of (get (codes "upload.validate_virus"));
  scan_timeout = int_of (get (codes "upload.scan_timeout"));
}

unfoldable pub decode_jwt : (Str → Option Setting) → JwtConfig
decode_jwt get = record {
  secret = str_of (get (codes "jwt.secret"));
  issuer = str_of (get (codes "jwt.issuer"));
  expire = int_of (get (codes "jwt.expire_hours"));
  refresh = int_of (get (codes "jwt.refresh_hours"));
  audience = str_of (get (codes "jwt.audience"));
  signing_key = str_of (get (codes "jwt.signing_key"));
  algorithm = str_of (get (codes "jwt.algorithm"));
}

unfoldable decode_oss : (Str → Option Setting) → OssConfig
decode_oss get = record {
  endpoint = str_of (get (codes "oss.endpoint"));
  access_key_id = str_of (get (codes "oss.access_key_id"));
  access_key_secret = str_of (get (codes "oss.access_key_secret"));
  bucket_name = str_of (get (codes "oss.bucket_name"));
  domain = str_of (get (codes "oss.domain"));
  region = str_of (get (codes "oss.region"));
  use_https = bool_of (get (codes "oss.use_https"));
  enable_cdn = bool_of (get (codes "oss.enable_cdn"));
}

unfoldable decode_log : (Str → Option Setting) → LogConfig
decode_log get = record {
  level = str_of (get (codes "log.level"));
  file = str_of (get (codes "log.file"));
  max_size = int_of (get (codes "log.max_size"));
  max_backups = int_of (get (codes "log.max_backups"));
  max_age = int_of (get (codes "log.max_age"));
  compress = bool_of (get (codes "log.compress"));
  add_caller = bool_of (get (codes "log.add_caller"));
  add_stack = bool_of (get (codes "log.add_stack"));
  json_format = bool_of (get (codes "log.json_format"));
  local_time = bool_of (get (codes "log.local_time"));
}

unfoldable decode_monitor : (Str → Option Setting) → MonitorConfig
decode_monitor get = record {
  enable_metrics = bool_of (get (codes "monitor.enable_metrics"));
  metrics_path = str_of (get (codes "monitor.metrics_path"));
  enable_health = bool_of (get (codes "monitor.enable_health"));
  health_path = str_of (get (codes "monitor.health_path"));
  enable_profiling = bool_of (get (codes "monitor.enable_profiling"));
  profile_path = str_of (get (codes "monitor.profile_path"));
  service_name = str_of (get (codes "monitor.service_name"));
  service_version = str_of (get (codes "monitor.service_version"));
  environment = str_of (get (codes "monitor.environment"));
  enable_tracing = bool_of (get (codes "monitor.enable_tracing"));
  jaeger_endpoint = str_of (get (codes "monitor.jaeger_endpoint"));
  trace_sampling_rate = float_of (get (codes "monitor.trace_sampling_rate"));
  enable_alerts = bool_of (get (codes "monitor.enable_alerts"));
  alert_webhook_url = str_of (get (codes "monitor.alert_webhook_url"));
}

unfoldable decode_security : (Str → Option Setting) → SecurityConfig
decode_security get = record {
  enable_rate_limit = bool_of (get (codes "security.enable_rate_limit"));
  rate_limit = int_of (get (codes "security.rate_limit"));
  enable_cors = bool_of (get (codes "security.enable_cors"));
  enable_csrf = bool_of (get (codes "security.enable_csrf"));
  csrf_secret = str_of (get (codes "security.csrf_secret"));
  trusted_proxies = strs_of (get (codes "security.trusted_proxies"));
  enable_xss_filter = bool_of (get (codes "security.enable_xss_filter"));
  enable_hsts = bool_of (get (codes "security.enable_hsts"));
  enable_csp = bool_of (get (codes "security.enable_csp"));
  allowed_origins = strs_of (get (codes "security.allowed_origins"));
  allowed_methods = strs_of (get (codes "security.allowed_methods"));
}

unfoldable pub decode_async : (Str → Option Setting) → AsyncConfig
decode_async get = record {
  max_workers = int_of (get (codes "async.max_workers"));
  max_queue_size = int_of (get (codes "async.max_queue_size"));
  worker_idle_time = int_of (get (codes "async.worker_idle_time"));
  enable_metrics = bool_of (get (codes "async.enable_metrics"));
  task_retries = int_of (get (codes "async.task_retries"));
  task_timeout = int_of (get (codes "async.task_timeout"));
}

unfoldable decode_rate_limit : (Str → Option Setting) → RateLimitConfig
decode_rate_limit get = record {
  enable_ip_limit = bool_of (get (codes "rate_limit.enable_ip_limit"));
  enable_token_limit = bool_of (get (codes "rate_limit.enable_token_limit"));
  limit = int_of (get (codes "rate_limit.limit"));
  window_seconds = int_of (get (codes "rate_limit.window_seconds"));
  redis_addr = str_of (get (codes "rate_limit.redis_addr"));
  redis_password = str_of (get (codes "rate_limit.redis_password"));
  redis_db = int_of (get (codes "rate_limit.redis_db"));
  fail_open = bool_of (get (codes "rate_limit.fail_open"));
}

unfoldable pub decode : (Str → Option Setting) → Config
unfolding decode_server decode_mysql_master decode_mysql_pool decode_mysql_log
    decode_mysql_performance decode_mysql decode_redis decode_queue_rabbitmq decode_queue
    decode_upload decode_jwt decode_oss decode_log decode_monitor decode_security decode_async
    decode_rate_limit
decode get = record {
  server = decode_server get;
  my_sql = decode_mysql get;
  redis = decode_redis get;
  queue = decode_queue get;
  upload = decode_upload get;
  jwt = decode_jwt get;
  oss = decode_oss get;
  log = decode_log get;
  monitor = decode_monitor get;
  security = decode_security get;
  async = decode_async get;
  rate_limit = decode_rate_limit get;
}
