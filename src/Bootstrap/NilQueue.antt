-- ===== src/Bootstrap/NilQueue.antt =====
-- What a RabbitMQ that cannot be reached leaves: a nil pointer in the closer's interface value.
use dgou_framework.Base.{
  Str, List, none, Bool, true, false, ◌≡◌, refl, ◌∙◌, ap, subst, codes, str_eq, if◌then◌else◌,
}
use dgou_framework.Config.Types.{Config}
use dgou_framework.Async.Pool.{Pool, stop, start, new_pool}
use dgou_framework.Queue.Rabbit.Connect.{new_rabbit_mq}
use dgou_framework.App.Instance.{
  StorageInstance, App, Process, Effect, effect, effect_if, stop_pool, close_queue, QueueValue,
  nil_pointer, nil_interface, queue_object, server_shut, db_closed, cache_closed, logs_synced,
  is_set, run, shutdown, register_default_middleware, register_health_check, register_metrics,
  register_pprof, new_app,
}
use dgou_framework.Bootstrap.Settings.{rabbit_config}
use dgou_framework.Bootstrap.{
  Outside, AppResult, started, init, assemble, build_app, closer, init_queue, injected,
}
use dgou_framework.Bootstrap.Exit.{effect-panicked}
use dgou_framework.Bootstrap.Origin.{init-Pooled, assemble-app}

-- A process that has not panicked and whose pool can be stopped.
abbrev Fine : Process → Type 0
Fine p = (p.panicked ≡ false) × ((stop p.pool).crashed ≡ false)

effect-Fine : (e : Effect) (p : Process) → Fine p → Fine (effect e p)
effect-Fine e p (f, c) = (rw f refl, rw f c)

effect-fine : (e : Effect) (p : Process) → p.panicked ≡ false → (effect e p).panicked ≡ false
effect-fine e p f = rw f refl

close_nil : (v : QueueValue) (p : Process) → v ≡ nil_interface → close_queue v p ≡ p
unfolding close_queue
close_nil nil_interface p e = refl
close_nil nil_pointer p e = cc
close_nil queue_object p e = cc

effect_if-Fine : (b : Bool) (e : Effect) (p : Process) → Fine p → Fine (effect_if b e p)
effect_if-Fine true e p d = effect-Fine e p d
effect_if-Fine false e p d = d

stop_if-Fine : (b : Bool) (p : Process) → Fine p → (if b then stop_pool p else p).panicked ≡ false
unfolding stop_pool
stop_if-Fine true p (f, c) = rw f c
stop_if-Fine false p (f, c) = f

-- `Shutdown` of an application with its server and without a queue.
shutdown-Fine :
    {Conn : Type 0} (a : App Conn) (p : Process)
    → a.queue ≡ nil_interface
    → Fine p
    → (shutdown (run a) p).panicked ≡ false
unfolding shutdown run
shutdown-Fine a p q d =
    let p1 = effect server_shut p in
    let p2 = effect_if (is_set a.db) db_closed p1 in
    let p3 = effect_if (is_set a.cache) cache_closed p2 in
    let p4 = if a.async_pool then stop_pool p3 else p3 in
    let d2 = effect_if-Fine (is_set a.db) db_closed p1 (effect-Fine server_shut p d) in
    let d3 = effect_if-Fine (is_set a.cache) cache_closed p2 d2 in
    let d4 = stop_if-Fine a.async_pool p3 d3 in
    effect-fine logs_synced (close_queue a.queue p4)
      (ap (λ x. x.panicked) (close_nil a.queue p4 q) ∙ d4)

nil_panics : (v : QueueValue) (p : Process) → v ≡ nil_pointer → (close_queue v p).panicked ≡ true
unfolding close_queue
nil_panics nil_pointer p e = refl
nil_panics nil_interface p e = cc
nil_panics queue_object p e = cc

closer-panics :
    {Conn : Type 0} (r : AppResult Conn) (p : Process)
    → r.queue ≡ nil_pointer
    → (closer r p).panicked ≡ true
unfolding closer
closer-panics r p q =
    let p1 = effect_if (is_set r.db) db_closed p in
    let p2 = stop_pool (effect cache_closed p1) in
    effect-panicked logs_synced (close_queue r.queue p2) (nil_panics r.queue p2 q)

module _ {File Conn : Type 0} (o : Outside File Conn) (cfg : Config)
    (rabbit : str_eq cfg.queue.driver (codes "rabbitmq") ≡ true)
    (unreachable : new_rabbit_mq o.amqp (rabbit_config cfg) ≡ none) where
  nil_queue : (init_queue o cfg).0 ≡ nil_pointer
  unfolding init_queue
  nil_queue = rw rabbit (rw unreachable refl)

  assemble-queue :
      (pool : Pool) (storage : StorageInstance)
      → let r = assemble o cfg pool storage in
        (r.queue ≡ nil_pointer) × (r.app.queue ≡ nil_interface)
  unfolding assemble build_app register_default_middleware register_health_check register_metrics
      register_pprof new_app
  assemble-queue pool storage = (nil_queue, ap (injected o) nil_queue)

-- Where the queue driver is RabbitMQ and the connection fails, Init starts the application without a
-- queue, whose Shutdown does not panic on a process that has not and whose pool can be stopped; but
-- its closer always panics, since it calls Close on a nil pointer that its interface holds.
pub closer_nil_queue :
    {File Conn : Type 0} (o : Outside File Conn) (path : List Str) (r : AppResult Conn)
    (p : Process)
    → init o path ≡ started r
    → str_eq r.app.cfg.queue.driver (codes "rabbitmq") ≡ true
    → new_rabbit_mq o.amqp (rabbit_config r.app.cfg) ≡ none
    → p.panicked ≡ false
    → (stop p.pool).crashed ≡ false
    → (r.app.queue ≡ nil_interface)
      × ((shutdown (run r.app) p).panicked ≡ false)
      × ((closer r p).panicked ≡ true)
closer_nil_queue o path r p e rabbit unreachable fine stops =
    let (cfg, loaded, pooled) = init-Pooled o r path e in
    let (s, made, same) = pooled.made in
    let pool = (start o.heap (new_pool pooled.n cfg.async.max_queue_size)).0 in
    let own = ap (λ x. x.app.cfg) same ∙ (assemble-app o cfg pool s).1 in
    let driver = subst (λ c. str_eq c.queue.driver (codes "rabbitmq") ≡ true) own rabbit in
    let dial = subst (λ c. new_rabbit_mq o.amqp (rabbit_config c) ≡ none) own unreachable in
    let (value, none_set) = assemble-queue o cfg driver dial pool s in
    let no_queue = ap (λ x. x.app.queue) same ∙ none_set in
    (
      no_queue,
      shutdown-Fine r.app p no_queue (fine, stops),
      closer-panics r p (ap (λ x. x.queue) same ∙ value),
    )
