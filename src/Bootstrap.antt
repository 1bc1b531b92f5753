-- ===== src/Bootstrap.antt =====
-- pkg/bootstrap/bootstrap.go: `Init`, from the configuration to the application and its closer. What
-- it asks of the outside is an argument: viper, opening a database connection, the ping to Redis,
-- making the upload directory, the client of OSS and RabbitMQ; each answers or fails. Building the
-- logger does not fail.
pub mod Settings
pub mod Exit
pub mod Origin
pub mod Defaults
pub mod NilQueue
use dgou_framework.Base.{
  ℕ, Bool, true, false, ◌||◌, ◌&&◌, not, Option, none, some, List, [], ◌∷◌, ◌++◌, Str, codes,
  str_eq, if◌then◌else◌, ◌⊎◌, inl, inr, ◌*◌,
}
use dgou_framework.Base.Int.{ℤ, pos, negsuc}
use dgou_framework.Config.Types.{Config}
use dgou_framework.Config.Load.{ViperLib, LoadError, load}
use dgou_framework.Cache.Memory.{new_memory}
use dgou_framework.Cache.Redis.{RedisConfig, RedisCache, new_redis}
use dgou_framework.Database.{Db}
use dgou_framework.Database.Settings.{OpenDb, new_database}
use dgou_framework.Upload.Local.{LocalConfig}
use dgou_framework.Async.Pool.{Heap, Pool, PoolError, new_pool, start}
use dgou_framework.Queue.Rabbit.{
  RabbitQueue, Command, Call, declare_exchange, declare_queue, bind_queue, call, close,
}
use dgou_framework.Queue.Rabbit.Connect.{Amqp, new_rabbit_mq}
use dgou_framework.App.Instance.{
  CacheInstance, memory_cache, redis_cache, StorageInstance, local_storage, oss_storage, QueueValue,
  nil_interface, nil_pointer, queue_object, App, new_app, set_database, set_cache, set_auth,
  set_async_pool, set_upload_manager, set_monitor, set_queue, is_set, register_default_middleware,
  register_health_check, register_metrics, register_pprof, Effect, db_closed, cache_closed,
  logs_synced, Process, effect, effect_if, stop_pool, close_queue,
}
use dgou_framework.Bootstrap.Settings.{
  OssSettings, logger_config, database_config, redis_config, auth_config, local_config, oss_config,
  upload_config, monitor_config, rabbit_config,
}

pub record Outside (File Conn : Type 0) : Type 1 where
  pub viper : ViperLib File
  pub open_db : OpenDb Conn
  pub redis_ping : RedisConfig → Bool
  pub make_dir : Str → Bool
  pub oss_client : OssSettings → Bool
  pub amqp : Amqp
  pub ask : Command ℕ → Option ℕ
  pub heap : Heap

-- `AppResult`: the application, what its closer holds, and the process that both work on. `declared`
-- is what RabbitMQ was asked for.
pub record AppResult (Conn : Type 0) : Type 0 where
  pub app : App Conn
  pub db : Option (Db Conn)
  pub queue : QueueValue
  pub process : Process
  pub declared : List (Command ℕ)

-- An error, the end of the process by `Fatal`, a panic, or the result.
pub data Outcome (Conn : Type 0) : Type 0 where
  load_failed : LoadError → Outcome Conn
  exited crashed : Outcome Conn
  started : AppResult Conn → Outcome Conn

abbrev is_empty : Str → Bool
is_empty [] = true
is_empty (c ∷ s) = false

abbrev pub fallback_cache : CacheInstance
fallback_cache = memory_cache (new_memory (pos 100) (pos (3600 * 1000000000)))

abbrev or_memory : Option RedisCache → CacheInstance
or_memory none = fallback_cache
or_memory (some r) = redis_cache r

-- `NewLocalStorage` and `NewOSSStorage`
abbrev if_made : Bool → StorageInstance → Option StorageInstance
if_made made s = if made then some s else none

-- the boundary of `make([]*worker, p.maxWorkers)`: a negative length panics
abbrev pub pool_of : ℤ → ℤ → Option Pool
pool_of (pos n) max_queue = some (new_pool n max_queue)
pool_of (negsuc n) max_queue = none

module _ {File Conn : Type 0} (o : Outside File Conn) where
  unfoldable pub init_database : Config → Option (Db Conn)
  unfolding new_database database_config
  init_database cfg =
      if is_empty cfg.my_sql.master.host then none else new_database o.open_db (database_config cfg)

  unfoldable pub init_cache : Config → CacheInstance
  unfolding redis_config new_redis
  init_cache cfg =
      if is_empty cfg.redis.addr
      then fallback_cache
      else or_memory (new_redis o.redis_ping (redis_config cfg) (codes "app"))

  -- `none` stands for `Fatal`: another storage type, or a storage that is not made
  unfoldable pub init_storage : Config → Option StorageInstance
  unfolding local_config oss_config
  init_storage cfg =
      if str_eq cfg.upload.storage_type (codes "local")
      then if_made (o.make_dir cfg.upload.base_path) (local_storage (local_config cfg))
      else if str_eq cfg.upload.storage_type (codes "oss")
      then if_made (o.oss_client (oss_config cfg)) (oss_storage (oss_config cfg))
      else none

  -- The declarations of the default exchange, queue and binding, where they are configured.
  unfoldable pub declarations : Config → List (Call ℕ)
  declarations cfg =
      let r = cfg.queue.rabbit_mq in
      (if is_empty r.exchange_name
        then []
        else (declare_exchange r.exchange_name r.exchange_type r.durable false false r.no_wait none
            ∷ []))
      ++ (if is_empty r.queue_name
          then []
          else (declare_queue r.queue_name r.durable r.auto_delete r.exclusive r.no_wait none ∷ []))
      ++ (if is_empty r.queue_name || is_empty r.exchange_name || is_empty r.routing_key
          then []
          else bind_queue r.queue_name r.routing_key r.exchange_name r.no_wait none ∷ [])

  -- Each declaration is made, and does not read the time; an error is only logged.
  unfoldable pub ask_all : RabbitQueue → List (Call ℕ) → List (Command ℕ)
  unfolding call
  ask_all q [] = []
  ask_all q (c ∷ cs) = (call o.ask q (pos 0) c).0 ++ ask_all q cs

  -- The queue: the interface value, the object, and what was declared with it.
  abbrev pub with_queue :
      Config → Option RabbitQueue → QueueValue × Option RabbitQueue × List (Command ℕ)
  with_queue cfg none = (nil_pointer, none, [])
  with_queue cfg (some q) = (queue_object, some q, ask_all q (declarations cfg))

  -- `NewRabbitMQ` returns a pointer, which is put into the interface before its error is looked at.
  unfoldable pub init_queue : Config → QueueValue × Option RabbitQueue × List (Command ℕ)
  unfolding new_rabbit_mq ask_all declarations rabbit_config
  init_queue cfg =
      if str_eq cfg.queue.driver (codes "rabbitmq")
      then with_queue cfg (new_rabbit_mq o.amqp (rabbit_config cfg))
      else (nil_interface, none, [])

  -- `SetQueue` is only called for a queue that has connected.
  abbrev pub injected : QueueValue → QueueValue
  injected queue_object = queue_object
  injected _ = nil_interface

  unfoldable pub build_app : Config → StorageInstance → QueueValue → App Conn
  unfolding register_default_middleware register_health_check register_metrics register_pprof
      new_app init_database init_cache auth_config upload_config monitor_config logger_config
  build_app cfg storage queue = register_pprof (
      register_metrics (
        register_health_check (
          register_default_middleware (
            set_queue (injected queue) (
              set_monitor (monitor_config cfg) (
                set_upload_manager storage (upload_config cfg) (
                  set_async_pool (
                    set_auth (auth_config cfg) (
                      set_cache (init_cache cfg) (
                        set_database (init_database cfg) (new_app cfg (logger_config cfg))))))))))))

  unfoldable pub assemble : Config → Pool → StorageInstance → AppResult Conn
  unfolding init_queue build_app init_database
  assemble cfg pool storage =
      let (value, object, declared) = init_queue cfg in
      record {
        app = build_app cfg storage value;
        db = init_database cfg;
        queue = value;
        process = record { pool = pool; queue = object; effects = []; panicked = false };
        declared = declared;
      }

  unfoldable pub with_storage : Config → Pool → Option StorageInstance → Outcome Conn
  unfolding assemble
  with_storage cfg pool none = exited
  with_storage cfg pool (some storage) = started (assemble cfg pool storage)

  -- The pool that is started; its `Start` fails only if it runs already.
  unfoldable pub with_start : Config → Pool × Option PoolError → Outcome Conn
  unfolding with_storage init_storage
  with_start cfg (pool, none) = with_storage cfg pool (init_storage cfg)
  with_start cfg (pool, some e) = exited

  unfoldable pub with_pool : Config → Option Pool → Outcome Conn
  unfolding with_start start
  with_pool cfg none = crashed
  with_pool cfg (some pool) = with_start cfg (start o.heap pool)

  unfoldable pub with_config : LoadError ⊎ Config → Outcome Conn
  unfolding with_pool new_pool
  with_config (inl e) = load_failed e
  with_config (inr cfg) = with_pool cfg (pool_of cfg.async.max_workers cfg.async.max_queue_size)

  unfoldable pub init : List Str → Outcome Conn
  unfolding load with_config
  init config_path = with_config (load o.viper config_path)

-- The closer that `Init` returns.
unfoldable pub closer : {Conn : Type 0} → AppResult Conn → Process → Process
unfolding stop_pool close_queue
closer r p0 =
    let p1 = effect_if (is_set r.db) db_closed p0 in
    let p2 = stop_pool (effect cache_closed p1) in effect logs_synced (close_queue r.queue p2)
