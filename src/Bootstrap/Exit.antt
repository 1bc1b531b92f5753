-- ===== src/Bootstrap/Exit.antt =====
-- cmd/server/main.go: the end of the program, which runs `Shutdown` and then, deferred, the closer.
use dgou_framework.Base.{
  Str, if◌then◌else◌, List, Option, none, some, Bool, true, false, ◌≡◌, ◌<◌, ◌⊎◌, inl, inr, refl,
  sym, ◌∙◌, subst, ap, arith, length, Bool-cases,
}
use dgou_framework.Async.Pool.{PoolEvent, Heap, stop, quit_twice, start, new_pool}
use dgou_framework.Async.Pool.Restart.{quit_twice-quit_all}
use dgou_framework.App.Instance.{
  Process, App, Effect, effect, effect_if, stop_pool, close_queue, QueueValue, nil_interface,
  nil_pointer, queue_object, cache_closed, db_closed, logs_synced, server_shut, is_set, panic,
  close_object, run, serve, shutdown,
}
use dgou_framework.Queue.Rabbit.{RabbitQueue}
use dgou_framework.Base.Int.{pos, ◌<ℤ◌}
use dgou_framework.Async.Pool.Workers.{pool_run-length, start-length}
use dgou_framework.Bootstrap.{Outside, started, init, AppResult, closer}
use dgou_framework.Bootstrap.Origin.{init-Pooled, assemble-app, assemble-pool}

-- `main` from `Run` on: the server has started, the application serves, while the pool does its
-- events, then a signal comes.
unfoldable pub main_exit : {Conn : Type 0} → Heap → AppResult Conn → List PoolEvent → Process
unfolding run serve shutdown closer
main_exit h r events = closer r (shutdown (run r.app) (serve h events r.process))

-- A process that has panicked, or whose pool has stopped with workers.
abbrev Doomed : Process → Type 0
Doomed p = (p.panicked ≡ true) ⊎ (quit_twice p.pool.workers ≡ true)

effect-Doomed : (e : Effect) (p : Process) → Doomed p → Doomed (effect e p)
effect-Doomed e p d = ground arith

effect_if-Doomed : (b : Bool) (e : Effect) (p : Process) → Doomed p → Doomed (effect_if b e p)
effect_if-Doomed true e p d = effect-Doomed e p d
effect_if-Doomed false e p d = d

close_queue-panicked :
    (v : QueueValue) (p : Process) → p.panicked ≡ true → (close_queue v p).panicked ≡ true
unfolding close_queue
close_queue-panicked nil_interface p d = d
close_queue-panicked nil_pointer p d = refl
close_queue-panicked queue_object p d = rw d refl

close_object-stopped :
    (o : Option RabbitQueue) (p : Process)
    → quit_twice p.pool.workers ≡ true
    → Doomed (close_object o p)
close_object-stopped none p d = inr d
close_object-stopped (some q) p d = inr d

close_object-step :
    (p : Process) → p.panicked ≡ false → close_queue queue_object p ≡ close_object p.queue p
unfolding close_queue
close_object-step p fine = rw fine refl

nil_same : (p : Process) → Doomed p → Doomed (close_queue nil_interface p)
unfolding close_queue
nil_same p d = d

nil_panics : (p : Process) → Doomed (close_queue nil_pointer p)
unfolding close_queue
nil_panics p = inl refl

close_queue-Doomed : (v : QueueValue) (p : Process) → Doomed p → Doomed (close_queue v p)
close_queue-Doomed v p (inl d) = inl (close_queue-panicked v p d)
close_queue-Doomed nil_interface p (inr d) = nil_same p (inr d)
close_queue-Doomed nil_pointer p (inr d) = nil_panics p
close_queue-Doomed queue_object p (inr d) = elim (Bool-cases p.panicked) [
  | inl panics ↦ inl (close_queue-panicked queue_object p panics)
  | inr fine ↦ subst Doomed (sym (close_object-step p fine)) (close_object-stopped p.queue p d)
]

pub effect-panicked : (e : Effect) (p : Process) → p.panicked ≡ true → (effect e p).panicked ≡ true
effect-panicked e p d = rw d refl

stop_pool-Doomed : (p : Process) → Doomed p → (stop_pool p).panicked ≡ true
unfolding stop_pool stop
stop_pool-Doomed p d = ground arith

closer-Doomed :
    {Conn : Type 0} (r : AppResult Conn) (p : Process) → Doomed p → (closer r p).panicked ≡ true
unfolding closer
closer-Doomed r p d =
    let d1 = effect-Doomed cache_closed _ (effect_if-Doomed (is_set r.db) db_closed p d) in
    effect-panicked logs_synced _ (close_queue-panicked r.queue _ (stop_pool-Doomed _ d1))

abbrev Ready : Process → Type 0
Ready p = (p.panicked ≡ true) ⊎ (0 < length p.pool.workers)

effect-Ready : (e : Effect) (p : Process) → Ready p → Ready (effect e p)
effect-Ready e p d = ground arith

effect_if-Ready : (b : Bool) (e : Effect) (p : Process) → Ready p → Ready (effect_if b e p)
effect_if-Ready true e p d = effect-Ready e p d
effect_if-Ready false e p d = d

stop_pool-Ready : (p : Process) → Ready p → Doomed (stop_pool p)
unfolding stop_pool stop
stop_pool-Ready p (inl d) = inl (rw d refl)
stop_pool-Ready p (inr d) = let two = quit_twice-quit_all p.pool.workers d in ground arith

server-Ready :
    (b : Bool) (p : Process) → Ready p → Ready (if b then effect server_shut p else panic p)
server-Ready true p d = effect-Ready server_shut p d
server-Ready false p d = inl refl

stop_if-Doomed :
    (b : Bool) (p : Process) → b ≡ true → Ready p → Doomed (if b then stop_pool p else p)
stop_if-Doomed true p e d = stop_pool-Ready p d
stop_if-Doomed false p e d = cc

shutdown-Doomed :
    {Conn : Type 0} (a : App Conn) (p : Process)
    → a.async_pool ≡ true
    → Ready p
    → Doomed (shutdown a p)
unfolding shutdown
shutdown-Doomed a p uses d =
    let d1 = server-Ready (is_set a.http_server) p d in
    let d2 = effect_if-Ready (is_set a.db) db_closed _ d1 in
    let d3 = effect_if-Ready (is_set a.cache) cache_closed _ d2 in
    effect-Doomed logs_synced _
      (close_queue-Doomed a.queue _ (stop_if-Doomed a.async_pool _ uses d3))

serve-Ready :
    (h : Heap) (events : List PoolEvent) (p : Process)
    → 0 < length p.pool.workers
    → Ready (serve h events p)
unfolding serve
serve-Ready h events p some_worker =
    inr (subst (λ n. 0 < n) (sym (pool_run-length h p.pool events)) some_worker)

run-pool : {Conn : Type 0} (a : App Conn) → (run a).async_pool ≡ a.async_pool
unfolding run
run-pool a = refl

-- An application that Init has started with at least one worker panics at the end of the program,
-- whatever its pool does meanwhile: Shutdown stops the pool, and the deferred closer stops it again,
-- which closes closed channels.
pub main_exit_panics :
    {File Conn : Type 0} (o : Outside File Conn) (path : List Str) (r : AppResult Conn)
    (events : List PoolEvent)
    → init o path ≡ started r
    → pos 0 <ℤ r.app.cfg.async.max_workers
    → (main_exit o.heap r events).panicked ≡ true
unfolding main_exit
main_exit_panics o path r events e some_worker =
    let (cfg, loaded, pooled) = init-Pooled o r path e in
    let (storage, made, same) = pooled.made in
    let pool = (start o.heap (new_pool pooled.n cfg.async.max_queue_size)).0 in
    let (uses, own) = assemble-app o cfg pool storage in
    let count =
      ap (λ p. length p.workers) (ap (λ x. x.process.pool) same ∙ assemble-pool o cfg pool storage)
      ∙ start-length o.heap pooled.n cfg.async.max_queue_size in
    let limit : r.app.cfg.async.max_workers ≡ pos pooled.n =
      ap (λ x. x.app.cfg.async.max_workers) same
      ∙ ap (λ c. c.async.max_workers) own
      ∙ pooled.workers in
    let some_n : pos 0 <ℤ pos pooled.n = subst (λ z. pos 0 <ℤ z) limit some_worker in
    let positive : 0 < pooled.n = omega (arith, some_n) in
    let some : 0 < length r.process.pool.workers = subst (λ n. 0 < n) (sym count) positive in
    closer-Doomed r _ (
      shutdown-Doomed (run r.app) _ (run-pool r.app ∙ ap (λ x. x.app.async_pool) same ∙ uses)
        (serve-Ready o.heap events r.process some))
