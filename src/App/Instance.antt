-- ===== src/App/Instance.antt =====
-- pkg/app/app.go: the application, its setters, what it registers with the engine, and `Shutdown`.
-- Components that calls of it only pass on are known by their configuration. The process holds what
-- the application and the closer of pkg/bootstrap share by pointer: the pool and the queue.
use dgou_framework.Base.{
  ℕ, Bool, true, false, ◌||◌, Option, none, some, List, [], ◌∷◌, ◌++◌, Str, codes, if◌then◌else◌,
}
use dgou_framework.Base.Int.{ℤ}
use dgou_framework.Base.Strconv.{format_int}
use dgou_framework.Config.Types.{Config}
use dgou_framework.Bootstrap.Settings.{times, second, LoggerConfig, OssSettings, MonitorSettings}
use dgou_framework.Cache.Memory.{MemoryCache}
use dgou_framework.Cache.Redis.{RedisCache}
use dgou_framework.Database.{Db}
use dgou_framework.Auth.Manager.{AuthConfig}
use dgou_framework.Upload.Local.{LocalConfig}
use dgou_framework.Upload.Manager.{UploadConfig}
use dgou_framework.Async.Pool.{Heap, Pool, PoolEvent, stop, pool_run}
use dgou_framework.Queue.Rabbit.{RabbitQueue, close}

-- the values of the interface `cache.Cache`
pub data CacheInstance : Type 0 where
  memory_cache : MemoryCache → CacheInstance
  redis_cache : RedisCache → CacheInstance

-- the values of `upload.Storage`
pub data StorageInstance : Type 0 where
  local_storage : LocalConfig → StorageInstance
  oss_storage : OssSettings → StorageInstance

-- The values of `queue.Queue`: a nil pointer in the interface is not the nil interface.
pub data QueueValue : Type 0 where
  nil_interface nil_pointer queue_object : QueueValue

-- what `engine.Use` is called with
pub data Handler : Type 0 where
  recovery request_id monitor_middleware request_logger : Handler
  cors : List Str → Handler

-- the fields of `http.Server` that are set; the handler is the engine
pub record HttpServer : Type 0 where
  pub addr : Str
  pub read_timeout : ℤ
  pub write_timeout : ℤ

pub record App (Conn : Type 0) : Type 0 where
  pub cfg : Config
  pub logger : LoggerConfig
  pub db : Option (Db Conn)
  pub cache : Option CacheInstance
  pub auth : Option AuthConfig
  pub async_pool : Bool
  pub upload_mgr : Option (StorageInstance × UploadConfig)
  pub monitor : Option MonitorSettings
  pub queue : QueueValue
  pub http_server : Option HttpServer
  pub engine : List Handler
  pub routes : List Str

abbrev pub is_set : {A : Type 0} → Option A → Bool
is_set none = false
is_set (some x) = true

abbrev pub when : {A : Type 0} → Bool → A → List A
when b x = if b then x ∷ [] else []

abbrev metrics_routes : Bool → Option MonitorSettings → List Str
metrics_routes enabled none = []
metrics_routes enabled (some m) = when enabled m.metrics_path

module _ {Conn : Type 0} where
  unfoldable pub new_app : Config → LoggerConfig → App Conn
  new_app cfg log = record {
    cfg = cfg;
    logger = log;
    db = none;
    cache = none;
    auth = none;
    async_pool = false;
    upload_mgr = none;
    monitor = none;
    queue = nil_interface;
    http_server = none;
    engine = [];
    routes = [];
  }

  abbrev pub set_database : Option (Db Conn) → App Conn → App Conn
  set_database db a = record a { db = db }

  abbrev pub set_cache : CacheInstance → App Conn → App Conn
  set_cache c a = record a { cache = some c }

  abbrev pub set_auth : AuthConfig → App Conn → App Conn
  set_auth am a = record a { auth = some am }

  abbrev pub set_async_pool : App Conn → App Conn
  set_async_pool a = record a { async_pool = true }

  abbrev pub set_upload_manager : StorageInstance → UploadConfig → App Conn → App Conn
  set_upload_manager storage cfg a = record a { upload_mgr = some (storage, cfg) }

  abbrev pub set_monitor : MonitorSettings → App Conn → App Conn
  set_monitor m a = record a { monitor = some m }

  abbrev pub set_queue : QueueValue → App Conn → App Conn
  set_queue q a = record a { queue = q }

  unfoldable pub register_default_middleware : App Conn → App Conn
  register_default_middleware a = record a {
    engine =
        a.engine
        ++ (recovery ∷ request_id ∷ [])
        ++ when a.cfg.security.enable_cors (cors a.cfg.security.allowed_origins)
        ++ when (is_set a.monitor) monitor_middleware
        ++ (request_logger ∷ []);
  }

  unfoldable pub register_health_check : App Conn → App Conn
  register_health_check a = record a {
    routes = a.routes ++ when a.cfg.monitor.enable_health a.cfg.monitor.health_path;
  }

  unfoldable pub register_metrics : App Conn → App Conn
  register_metrics a = record a {
    routes = a.routes ++ metrics_routes a.cfg.monitor.enable_metrics a.monitor;
  }

  -- the branch has no code
  unfoldable pub register_pprof : App Conn → App Conn
  register_pprof a = a

  -- `Run` and `Start`, up to the server that they set and that listens
  unfoldable pub run : App Conn → App Conn
  run a = record a {
    http_server = some (record {
      addr = codes ":" ++ format_int a.cfg.server.port;
      read_timeout = times a.cfg.server.read_timeout second;
      write_timeout = times a.cfg.server.write_timeout second;
    });
  }

pub data Effect : Type 0 where
  server_shut db_closed cache_closed pool_stopped queue_closed logs_synced : Effect

-- What the process has done, the latest first, and whether it has panicked: then it does no more.
pub record Process : Type 0 where
  pub pool : Pool
  pub queue : Option RabbitQueue
  pub effects : List Effect
  pub panicked : Bool

abbrev pub effect : Effect → Process → Process
effect e p = if p.panicked then p else record p { effects = e ∷ p.effects }

abbrev pub effect_if : Bool → Effect → Process → Process
effect_if b e p = if b then effect e p else p

abbrev pub panic : Process → Process
panic p = record p { panicked = true }

-- `asyncPool.Stop()`
unfoldable pub stop_pool : Process → Process
unfolding stop
stop_pool p = if p.panicked then p else record p {
  pool = stop p.pool;
  panicked = (stop p.pool).crashed;
  effects = pool_stopped ∷ p.effects;
}

abbrev pub close_object : Option RabbitQueue → Process → Process
close_object none p = p
close_object (some q) p =
    let (q', commands, panics) = close {Table = ℕ} q in
    record p { queue = some q'; panicked = panics; effects = queue_closed ∷ p.effects }

-- `if queue != nil { queue.Close() }`: a nil pointer in the interface is dereferenced.
unfoldable pub close_queue : QueueValue → Process → Process
unfolding close
close_queue nil_interface p = p
close_queue nil_pointer p = panic p
close_queue queue_object p = if p.panicked then p else close_object p.queue p

module _ {Conn : Type 0} where
  -- `Shutdown`; without a server it dereferences a nil pointer.
  unfoldable pub shutdown : App Conn → Process → Process
  unfolding stop_pool close_queue
  shutdown a p0 =
      let p1 = if is_set a.http_server then effect server_shut p0 else panic p0 in
      let p2 = effect_if (is_set a.db) db_closed p1 in
      let p3 = effect_if (is_set a.cache) cache_closed p2 in
      let p4 = if a.async_pool then stop_pool p3 else p3 in
      effect logs_synced (close_queue a.queue p4)

-- What the pool does while the application serves.
unfoldable pub serve : Heap → List PoolEvent → Process → Process
serve h events p =
    let pool = pool_run h p.pool events in
    record p { pool = pool; panicked = p.panicked || pool.crashed }
