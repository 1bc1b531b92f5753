-- ===== src/Async/Pool/Conservation.antt =====
-- Counting the tasks on their way through the pool.
use dgou_framework.Base.{
  ℕ, zero, suc, ◌+◌, ◌≡◌, ◌∙◌, refl, sym, Bool, Option, none, some, List, [], ◌∷◌, arith,
  Option-cases, inl, inr, if◌then◌else◌,
}
use dgou_framework.Base.Int.{ℤ}
use dgou_framework.Async.Pool.{
  PoolTask, count, Heap, Worker, Pool, new_pool, new_workers, quit_all, stop, offer, change,
  take_task, release, leave, current_of, PoolEvent, submit_call, stop_call, dispatch_takes,
  dispatch_places, worker_takes, worker_finishes, worker_returns, start, submit, pop_queue,
  dispatch_take, placed, dispatch_place, note, pool_step, pool_run, if_accepted, accepted,
}

module _ (f : PoolTask → Bool) where
  abbrev pub count_slot : Option PoolTask → ℕ
  count_slot none = 0
  count_slot (some t) = if f t then 1 else 0

  -- the tasks that workers have in their channels or execute
  unfoldable pub count_workers : List Worker → ℕ
  count_workers [] = 0
  count_workers (w ∷ ws) = count_slot w.channel + count_slot w.current + count_workers ws

  -- All tasks that the pool holds or has finished, those that pass the test.
  unfoldable pub count_all : Pool → ℕ
  unfolding count_workers count
  count_all p =
      count f p.queue + count_slot p.in_hand + count_workers p.workers + count f p.finished

  count_cons :
      (t : PoolTask) (l : List PoolTask) → count f (t ∷ l) ≡ count_slot (some t) + count f l
  unfolding count
  count_cons t l = ground arith

  count-note :
      (o : Option PoolTask) (l : List PoolTask) → count f (note o l) ≡ count_slot o + count f l
  count-note none l = omega arith
  count-note (some t) l = count_cons t l

  count-offer :
      (t : PoolTask) (ws ws' : List Worker)
      → offer t ws ≡ some ws'
      → count_workers ws' ≡ count_slot (some t) + count_workers ws
  unfolding offer count_workers
  count-offer t [] ws' h = cc
  count-offer t (w ∷ ws) ws' h = elim (Option-cases (offer t ws)) [
    | inl full ↦ ground arith
    | inr (vs, e) ↦ ground (arith, count-offer t ws vs e)
  ]

  count-change :
      (i : ℕ) (g : Worker → Worker) (ws : List Worker)
      → ((w : Worker)
          → count_slot (g w).channel + count_slot (g w).current
            ≡ count_slot w.channel + count_slot w.current)
      → count_workers (change i g ws) ≡ count_workers ws
  unfolding change count_workers
  count-change i g [] h = refl
  count-change zero g (w ∷ ws) h = omega (arith, h w)
  count-change (suc i) g (w ∷ ws) h = omega (arith, count-change i g ws h)

  count-take_task :
      (w : Worker)
      → count_slot (take_task w).channel + count_slot (take_task w).current
        ≡ count_slot w.channel + count_slot w.current
  unfolding take_task
  count-take_task w = ground arith

  count-leave :
      (b : Bool) (w : Worker)
      → count_slot (leave b w).channel + count_slot (leave b w).current
        ≡ count_slot w.channel + count_slot w.current
  unfolding leave
  count-leave b w = ground arith

  count-release :
      (i : ℕ) (ws : List Worker)
      → count_workers (change i release ws) + count_slot (current_of i ws) ≡ count_workers ws
  unfolding change release current_of count_workers
  count-release i [] = refl
  count-release zero (w ∷ ws) = omega arith
  count-release (suc i) (w ∷ ws) = omega (arith, count-release i ws)

  count-quit_all : (ws : List Worker) → count_workers (quit_all ws) ≡ count_workers ws
  unfolding quit_all count_workers
  count-quit_all [] = refl
  count-quit_all (w ∷ ws) = omega (arith, count-quit_all ws)

  count-new_workers : (n : ℕ) → count_workers (new_workers n) ≡ 0
  unfolding new_workers count_workers
  count-new_workers zero = refl
  count-new_workers (suc n) = omega (arith, count-new_workers n)

  module _ (h : Heap) where
    count-pop_queue :
        (q : List PoolTask) (p : Pool)
        → p.queue ≡ q
        → p.in_hand ≡ none
        → count_all (pop_queue h q p) ≡ count_all p
    unfolding count_all
    count-pop_queue [] p e n = refl
    count-pop_queue (t ∷ q) p e n =
        let c = sym (count_cons (h.pop t q).0 (h.pop t q).1) ∙ h.count-pop f t q in
        rw (e, n) (omega (arith, c))

    count-dispatch_take : (p : Pool) → count_all (dispatch_take h p) ≡ count_all p
    unfolding dispatch_take
    count-dispatch_take p = elim (Option-cases p.in_hand) [
      | inl free ↦ ground (arith, count-pop_queue p.queue p refl free)
      | inr (t, e) ↦ rw e refl
    ]

    count-placed :
        (t : PoolTask) (p : Pool)
        → p.in_hand ≡ some t
        → count_all (placed h t (offer t p.workers) p) ≡ count_all p
    unfolding count_all
    count-placed t p e = elim (Option-cases (offer t p.workers)) [
      | inl full ↦ rw (full, e) (omega (arith, h.count-push f t p.queue ∙ count_cons t p.queue))
      | inr (ws, found) ↦ rw (found, e) (omega (arith, count-offer t p.workers ws found))
    ]

    count-dispatch_place : (p : Pool) → count_all (dispatch_place h p) ≡ count_all p
    unfolding dispatch_place
    count-dispatch_place p = elim (Option-cases p.in_hand) [
      | inl free ↦ ground (arith, free)
      | inr (t, e) ↦ ground (arith, count-placed t p e)
    ]

    count-submit :
        (p : Pool) (t : PoolTask)
        → count_all (submit h p t).0 ≡ count f (if_accepted (submit h p t).1 t []) + count_all p
    unfolding submit count_all count
    count-submit p t = ground (arith, h.count-push f t p.queue, count_cons t p.queue)

    start_empty :
        (workers : ℕ) (max_queue : ℤ) → count_all (start h (new_pool workers max_queue)).0 ≡ 0
    unfolding start new_pool count_all count
    start_empty workers max_queue = omega (arith, h.count-heapify f [], count-new_workers workers)

    count-pool_step :
        (p : Pool) (e : PoolEvent)
        → count_all (pool_step h p e) ≡ count f (accepted h p (e ∷ [])) + count_all p
    unfolding pool_step accepted count
    count-pool_step p (submit_call t) = count-submit p t
    count-pool_step p stop_call =
        unfold stop in unfold count_all in omega (arith, count-quit_all p.workers)
    count-pool_step p dispatch_takes = omega (arith, count-dispatch_take p)
    count-pool_step p dispatch_places = omega (arith, count-dispatch_place p)
    count-pool_step p (worker_takes i) =
        unfold count_all in omega (arith, count-change i take_task p.workers count-take_task)
    count-pool_step p (worker_finishes i) =
        unfold count_all in
        omega (arith, count-release i p.workers, count-note (current_of i p.workers) p.finished)
    count-pool_step p (worker_returns i) =
        unfold count_all in
        omega (arith, count-change i (leave p.ctx_done) p.workers (count-leave p.ctx_done))

    count-accepted :
        (p : Pool) (e : PoolEvent) (es : List PoolEvent)
        → count f (accepted h p (e ∷ es))
          ≡ count f (accepted h p (e ∷ [])) + count f (accepted h (pool_step h p e) es)
    unfolding accepted count
    count-accepted p e es = ground arith

    pool_run-count_lem :
        (p : Pool) (es : List PoolEvent)
        → count_all (pool_run h p es) ≡ count f (accepted h p es) + count_all p
    unfolding pool_run
    pool_run-count_lem p [] = unfold accepted in unfold count in omega arith
    pool_run-count_lem p (e ∷ es) =
        let ih = pool_run-count_lem (pool_step h p e) es in
        omega (arith, count-accepted p e es, count-pool_step p e)

    -- A run of a started pool neither loses nor duplicates a task: for every test on tasks, as many
    -- that pass it wait, are on their way, are executed or are finished as `Submit` has accepted.
    pub pool_run-count :
        (workers : ℕ) (max_queue : ℤ) (es : List PoolEvent)
        → let p = (start h (new_pool workers max_queue)).0 in
          count_all (pool_run h p es) ≡ count f (accepted h p es)
    pool_run-count workers max_queue es =
        let p = (start h (new_pool workers max_queue)).0 in
        omega (arith, pool_run-count_lem p es, start_empty workers max_queue)
