-- ===== src/Tests/Support/Pool.antt =====
-- The pool with a queue that looks for its least task.
use dgou_framework.Base.{
  ℕ, ◌≡◌, refl, Bool, true, false, List, [], ◌∷◌, arith, if◌then◌else◌, All, Bool-cases, inl, inr,
}
use dgou_framework.Base.Int.{pos}
use dgou_framework.Async.Pool.{
  PoolTask, less, count, Heap, Pool, new_pool, start, PoolEvent, submit_call, dispatch_takes,
  dispatch_places, worker_takes, worker_finishes, pool_run, accepted,
}
use dgou_framework.Async.Pool.Conservation.{count_all, pool_run-count}
use dgou_framework.Async.Pool.Order.{PoolInv, pool_run-PoolInv}

abbrev put_back : PoolTask → PoolTask × List PoolTask → PoolTask × List PoolTask
put_back t (m, r) = if less t m then (t, m ∷ r) else (m, t ∷ r)

unfoldable pub least : PoolTask → List PoolTask → PoolTask × List PoolTask
least t [] = (t, [])
least t (x ∷ q) = put_back t (least x q)

pub count-least :
    (f : PoolTask → Bool) (t : PoolTask) (q : List PoolTask)
    → count f ((least t q).0 ∷ (least t q).1) ≡ count f (t ∷ q)
unfolding least count
count-least f t [] = refl
count-least f t (x ∷ q) = let ih = count-least f x q in ground arith

All-not_less :
    (m t : PoolTask) (l : List PoolTask)
    → less t m ≡ true
    → All (λ x. less x m ≡ false) l
    → All (λ x. less x t ≡ false) l
All-not_less m t [] h v = tt
All-not_less m t (x ∷ l) h v = (ground (arith, v.0), All-not_less m t l h v.1)

pub least-All :
    (t : PoolTask) (q : List PoolTask) → All (λ x. less x (least t q).0 ≡ false) (least t q).1
unfolding least
least-All t [] = tt
least-All t (x ∷ q) = elim (Bool-cases (less t (least x q).0)) [
  | inl p ↦ rw p ((ground arith), All-not_less (least x q).0 t (least x q).1 p (least-All x q))
  | inr p ↦ rw p (p, least-All x q)
]

abbrev pub scan : Heap
scan = record {
  IsHeap = λ q. Unit {0};
  heapify = λ q. q;
  push = λ t q. t ∷ q;
  pop = least;
  nil-IsHeap = tt;
  heapify-IsHeap = λ q. tt;
  push-IsHeap = λ t q v. tt;
  pop-IsHeap = λ t q v. tt;
  count-heapify = λ f q. refl;
  count-push = λ f t q. refl;
  count-pop = count-least;
  pop-least = λ t q v. least-All t q;
}

abbrev task : ℕ → ℕ → PoolTask
task n p = record { number = n; priority = pos p }

abbrev events : List PoolEvent
events =
    submit_call (task 1 5)
    ∷ submit_call (task 2 3)
    ∷ dispatch_takes
    ∷ submit_call (task 3 1)
    ∷ dispatch_places
    ∷ worker_takes 0
    ∷ worker_finishes 0
    ∷ []

abbrev started : Pool
started = (start scan (new_pool 1 (pos 2))).0

pool_run-count_example :
    count_all (λ t. less t (task 0 4)) (pool_run scan started events)
    ≡ count (λ t. less t (task 0 4)) (accepted scan started events)
pool_run-count_example = pool_run-count (λ t. less t (task 0 4)) scan 1 (pos 2) events

pool_run-PoolInv_example : PoolInv scan 2 (pool_run scan started events)
pool_run-PoolInv_example = pool_run-PoolInv scan 1 2 events

abbrev waiting : Pool
waiting = pool_run scan started (submit_call (task 1 5) ∷ submit_call (task 2 3) ∷ [])
