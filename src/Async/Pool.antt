-- ===== src/Async/Pool.antt =====
-- pkg/async/async.go, the pool: its queue, the workers' channels of capacity one, and the steps of
-- the callers, of the one dispatcher and of the workers. Some steps are coarser than the code's:
-- the dispatcher's look at the context and its locked Pop are one step (`dispatch_take`); its
-- attempts to send to one worker after another, and the Push of a task that no worker takes, are one
-- step (`dispatch_place`); and so are Submit's look at `running` and its locked part. `stop` is the
-- part of Stop before it waits for the workers. So nothing is said of a dispatcher that is overtaken
-- by Stop and Start between its look at the context and its Pop.
-- The priority queue is package container/heap together with the Len, Swap, Push and Pop of
-- `priorityQueue`, for any Less: an argument with what the package's documentation promises. A task
-- is known by a number and its priority; a worker's call of `execute` lasts from `worker_takes` to
-- `worker_finishes` (see Task for what it does).
pub mod Conservation
pub mod Order
pub mod Restart
pub mod Workers
use dgou_framework.Base.{
  ℕ, zero, suc, ◌+◌, ◌≤◌, ◌≡◌, Bool, true, false, ◌&&◌, ◌||◌, not, Option, none, some, List, [],
  ◌∷◌, All, length, ltb, leb, if◌then◌else◌,
}
use dgou_framework.Base.Int.{ℤ, pos, ltb_ℤ, leb_ℤ}

pub record PoolTask : Type 0 where
  pub number : ℕ
  pub priority : ℤ

-- `priorityQueue.Less`
abbrev pub less : PoolTask → PoolTask → Bool
less a b = ltb_ℤ a.priority b.priority

-- how many tasks of a list pass a test
unfoldable pub count : (PoolTask → Bool) → List PoolTask → ℕ
count f [] = 0
count f (t ∷ l) = let n = count f l in if f t then suc n else n

-- container/heap over a slice with `priorityQueue`'s Len, Swap, Push and Pop, and `before` as its
-- Less. `Pop` is for a slice that is not empty; the result is the task and the rest.
pub record HeapOver (before : PoolTask → PoolTask → Bool) : Type 1 where
  pub IsHeap : List PoolTask → Type 0
  pub heapify : List PoolTask → List PoolTask
  pub push : PoolTask → List PoolTask → List PoolTask
  pub pop : PoolTask → List PoolTask → PoolTask × List PoolTask
  pub nil-IsHeap : IsHeap []
  pub heapify-IsHeap : (q : List PoolTask) → IsHeap (heapify q)
  pub push-IsHeap : (t : PoolTask) (q : List PoolTask) → IsHeap q → IsHeap (push t q)
  pub pop-IsHeap : (t : PoolTask) (q : List PoolTask) → IsHeap (t ∷ q) → IsHeap (pop t q).1
  pub count-heapify : (f : PoolTask → Bool) (q : List PoolTask) → count f (heapify q) ≡ count f q
  pub count-push :
      (f : PoolTask → Bool) (t : PoolTask) (q : List PoolTask)
      → count f (push t q) ≡ count f (t ∷ q)
  pub count-pop :
      (f : PoolTask → Bool) (t : PoolTask) (q : List PoolTask)
      → count f ((pop t q).0 ∷ (pop t q).1) ≡ count f (t ∷ q)
  pub pop-least :
      (t : PoolTask) (q : List PoolTask)
      → IsHeap (t ∷ q)
      → All (λ x. before x (pop t q).0 ≡ false) (pop t q).1

-- the queue of the pool: a heap by `priorityQueue.Less`
abbrev pub Heap : Type 1
Heap = HeapOver less

-- `worker`: its channel holds at most one task; `current` is the task that it executes.
pub record Worker : Type 0 where
  pub channel : Option PoolTask
  pub current : Option PoolTask
  pub quit_closed : Bool
  pub returned : Bool

-- `Pool`. `in_hand` is the dispatcher's task between taking it and placing it; `finished` are the
-- tasks whose `execute` has returned; `crashed` marks the close of a closed channel.
pub record Pool : Type 0 where
  pub max_workers : ℕ
  pub max_queue : ℤ
  pub running : Bool
  pub queue : List PoolTask
  pub workers : List Worker
  pub ctx_done : Bool
  pub in_hand : Option PoolTask
  pub finished : List PoolTask
  pub crashed : Bool

unfoldable pub new_pool : ℕ → ℤ → Pool
new_pool max_workers max_queue = record {
  max_workers = max_workers;
  max_queue = max_queue;
  running = false;
  queue = [];
  workers = [];
  ctx_done = false;
  in_hand = none;
  finished = [];
  crashed = false;
}

abbrev pub idle_worker : Worker
idle_worker = record { channel = none; current = none; quit_closed = false; returned = false }

unfoldable pub new_workers : ℕ → List Worker
new_workers zero = []
new_workers (suc n) = idle_worker ∷ new_workers n

-- `close(w.quit)` for each worker; whether one of them was closed before
unfoldable pub quit_all : List Worker → List Worker
quit_all [] = []
quit_all (w ∷ ws) = record w { quit_closed = true } ∷ quit_all ws

unfoldable pub quit_twice : List Worker → Bool
quit_twice [] = false
quit_twice (w ∷ ws) = w.quit_closed || quit_twice ws

-- `Stop`, up to its wait for the workers. The context may be cancelled again, the channels not.
unfoldable pub stop : Pool → Pool
unfolding quit_all quit_twice
stop p = record p {
  running = false;
  ctx_done = true;
  workers = quit_all p.workers;
  crashed = p.crashed || quit_twice p.workers;
}

-- The loop over the workers: the first with room in its channel gets the task.
unfoldable pub offer : PoolTask → List Worker → Option (List Worker)
offer t [] = none
offer t (w ∷ ws) =
    let rest = offer t ws in
    elim w.channel [
      | none ↦ some (record w { channel = some t } ∷ ws)
      | some x ↦ elim rest [ none ↦ none | some ws' ↦ some (w ∷ ws') ]
    ]

-- the `i`-th worker, changed
unfoldable pub change : ℕ → (Worker → Worker) → List Worker → List Worker
change i f [] = []
change zero f (w ∷ ws) = f w ∷ ws
change (suc i) f (w ∷ ws) = w ∷ change i f ws

-- A worker that executes nothing receives from its channel.
abbrev receive : Option PoolTask → Option PoolTask → Worker → Worker
receive (some t) none w = if w.returned then w else record w { channel = none; current = some t }
receive _ _ w = w

unfoldable pub take_task : Worker → Worker
take_task w = receive w.channel w.current w

unfoldable pub release : Worker → Worker
release w = record w { current = none }

-- A worker that executes nothing returns if its quit channel is closed or the context has ended.
unfoldable pub leave : Bool → Worker → Worker
leave ctx_done w = elim w.current [
  | none ↦ if w.quit_closed || ctx_done then record w { returned = true } else w
  | some t ↦ w
]

unfoldable pub current_of : ℕ → List Worker → Option PoolTask
current_of i [] = none
current_of zero (w ∷ ws) = w.current
current_of (suc i) (w ∷ ws) = current_of i ws

pub data PoolError : Type 0 where
  pool_not_running queue_full pool_already_running : PoolError

-- The step events but `Start`.
pub data PoolEvent : Type 0 where
  submit_call : PoolTask → PoolEvent
  stop_call dispatch_takes dispatch_places : PoolEvent
  worker_takes worker_finishes worker_returns : ℕ → PoolEvent

abbrev pub note : Option PoolTask → List PoolTask → List PoolTask
note none l = l
note (some t) l = t ∷ l

abbrev pub if_accepted : Option PoolError → PoolTask → List PoolTask → List PoolTask
if_accepted none t l = t ∷ l
if_accepted (some e) t l = l

module _ (h : Heap) where
  unfoldable pub start : Pool → Pool × Option PoolError
  unfolding new_workers
  start p = if p.running then (p, some pool_already_running) else (
    record p { running = true; queue = h.heapify p.queue; workers = new_workers p.max_workers },
    none,
  )

  unfoldable pub submit : Pool → PoolTask → Pool × Option PoolError
  submit p t =
      if not p.running
      then (p, some pool_not_running)
      else if leb_ℤ p.max_queue (pos (length p.queue))
      then (p, some queue_full)
      else (record p { queue = h.push t p.queue }, none)

  -- the dispatcher's step up to `heap.Pop`; with an empty queue it sleeps
  abbrev pub pop_queue : List PoolTask → Pool → Pool
  pop_queue [] p = p
  pop_queue (t ∷ q) p = record p { queue = (h.pop t q).1; in_hand = some (h.pop t q).0 }

  unfoldable pub dispatch_take : Pool → Pool
  dispatch_take p = elim p.in_hand [
    | some t ↦ p
    | none ↦ if p.ctx_done then p else pop_queue p.queue p
  ]

  -- the rest of the dispatcher's round: a worker gets the task, or it goes back to the queue
  abbrev pub placed : PoolTask → Option (List Worker) → Pool → Pool
  placed t none p = record p { queue = h.push t p.queue; in_hand = none }
  placed t (some ws) p = record p { workers = ws; in_hand = none }

  unfoldable pub dispatch_place : Pool → Pool
  unfolding offer
  dispatch_place p = elim p.in_hand [ none ↦ p | some t ↦ placed t (offer t p.workers) p ]

  unfoldable pub pool_step : Pool → PoolEvent → Pool
  unfolding submit stop dispatch_take dispatch_place change take_task release leave current_of
  pool_step p (submit_call t) = (submit p t).0
  pool_step p stop_call = stop p
  pool_step p dispatch_takes = dispatch_take p
  pool_step p dispatch_places = dispatch_place p
  pool_step p (worker_takes i) = record p { workers = change i take_task p.workers }
  pool_step p (worker_finishes i) = record p {
    workers = change i release p.workers;
    finished = note (current_of i p.workers) p.finished;
  }
  pool_step p (worker_returns i) = record p { workers = change i (leave p.ctx_done) p.workers }

  unfoldable pub pool_run : Pool → List PoolEvent → Pool
  unfolding pool_step
  pool_run p [] = p
  pool_run p (e ∷ es) = pool_run (pool_step p e) es

  -- The tasks that `Submit` has accepted in a run.
  unfoldable pub accepted : Pool → List PoolEvent → List PoolTask
  unfolding pool_step submit
  accepted p [] = []
  accepted p (submit_call t ∷ es) =
      if_accepted (submit p t).1 t (accepted (pool_step p (submit_call t)) es)
  accepted p (e ∷ es) = accepted (pool_step p e) es
