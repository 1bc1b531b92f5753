-- ===== src/Async/Pool/Workers.antt =====
-- The workers of a pool: no event but `Start` changes how many there are.
use dgou_framework.Base.{
  ℕ, zero, suc, ◌≡◌, refl, ◌∙◌, ap, Option, none, some, List, [], ◌∷◌, length, arith, Option-cases,
  Bool-cases, inl, inr,
}
use dgou_framework.Base.Int.{ℤ}
use dgou_framework.Async.Pool.{
  PoolTask, Heap, Worker, Pool, new_pool, new_workers, quit_all, stop, offer, placed, pop_queue,
  change, take_task, release, leave, PoolEvent, submit_call, stop_call, dispatch_takes,
  dispatch_places, worker_takes, worker_finishes, worker_returns, start, submit, dispatch_take,
  dispatch_place, pool_step, pool_run,
}

length-new_workers : (n : ℕ) → length (new_workers n) ≡ n
unfolding new_workers
length-new_workers zero = refl
length-new_workers (suc n) = omega (arith, length-new_workers n)

length-change :
    (i : ℕ) (g : Worker → Worker) (ws : List Worker) → length (change i g ws) ≡ length ws
unfolding change
length-change i g [] = refl
length-change zero g (w ∷ ws) = refl
length-change (suc i) g (w ∷ ws) = omega (arith, length-change i g ws)

length-quit_all : (ws : List Worker) → length (quit_all ws) ≡ length ws
unfolding quit_all
length-quit_all [] = refl
length-quit_all (w ∷ ws) = omega (arith, length-quit_all ws)

-- the length of the list that a task was offered to
length_or : ℕ → Option (List Worker) → ℕ
length_or n none = n
length_or n (some ws) = length ws

length-extend :
    (w : Worker) (n : ℕ) (o : Option (List Worker))
    → length_or n o ≡ n
    → length_or (suc n) (elim o [ none ↦ none | some ws ↦ some (w ∷ ws) ]) ≡ suc n
unfolding length_or
length-extend w n none h = refl
length-extend w n (some ws) h = omega (arith, h)

length-offer : (t : PoolTask) (ws : List Worker) → length_or (length ws) (offer t ws) ≡ length ws
unfolding offer length_or
length-offer t [] = refl
length-offer t (w ∷ ws) = elim (Option-cases w.channel) [
  | inl free ↦ rw free refl
  | inr (x, full) ↦ rw full (length-extend w (length ws) (offer t ws) (length-offer t ws))
]

module _ (h : Heap) where
  pop_queue-workers : (q : List PoolTask) (p : Pool) → (pop_queue h q p).workers ≡ p.workers
  pop_queue-workers [] p = refl
  pop_queue-workers (t ∷ q) p = refl

  dispatch_take-workers : (p : Pool) → (dispatch_take h p).workers ≡ p.workers
  unfolding dispatch_take
  dispatch_take-workers p = elim (Option-cases p.in_hand) [
    | inl free ↦ elim (Bool-cases p.ctx_done) [
      | inl ended ↦ rw (free, ended) refl
      | inr going ↦ rw (free, going) (pop_queue-workers p.queue _)
    ]
    | inr (t, busy) ↦ rw busy refl
  ]

  length-placed :
      (t : PoolTask) (o : Option (List Worker)) (p : Pool)
      → length_or (length p.workers) o ≡ length p.workers
      → length (placed h t o p).workers ≡ length p.workers
  unfolding length_or
  length-placed t none p e = refl
  length-placed t (some ws) p e = e

  length-dispatch_place : (p : Pool) → length (dispatch_place h p).workers ≡ length p.workers
  unfolding dispatch_place
  length-dispatch_place p = elim (Option-cases p.in_hand) [
    | inl free ↦ rw free refl
    | inr (t, busy) ↦ rw busy (length-placed t (offer t p.workers) _ (length-offer t p.workers))
  ]

  pool_step-length :
      (p : Pool) (e : PoolEvent) → length (pool_step h p e).workers ≡ length p.workers
  unfolding pool_step submit stop dispatch_take dispatch_place
  pool_step-length p (submit_call t) = ground arith
  pool_step-length p stop_call = length-quit_all p.workers
  pool_step-length p dispatch_takes = ap length (dispatch_take-workers p)
  pool_step-length p dispatch_places = length-dispatch_place p
  pool_step-length p (worker_takes i) = length-change i take_task p.workers
  pool_step-length p (worker_finishes i) = length-change i release p.workers
  pool_step-length p (worker_returns i) = length-change i (leave p.ctx_done) p.workers

  pub pool_run-length :
      (p : Pool) (es : List PoolEvent) → length (pool_run h p es).workers ≡ length p.workers
  unfolding pool_run
  pool_run-length p [] = refl
  pool_run-length p (e ∷ es) = pool_run-length (pool_step h p e) es ∙ pool_step-length p e

  pub start-length : (n : ℕ) (max_queue : ℤ) → length (start h (new_pool n max_queue)).0.workers ≡ n
  unfolding start new_pool
  start-length n max_queue = length-new_workers n
