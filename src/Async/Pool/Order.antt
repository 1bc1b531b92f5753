-- ===== src/Async/Pool/Order.antt =====
-- The queue's order and bound, the dispatcher's choice, and `Stop`.
use dgou_framework.Base.{
  ℕ, suc, ◌+◌, ◌≤◌, ◌≡◌, ◌∙◌, refl, sym, ap, subst, true, Option, none, some, List, [], ◌∷◌, length,
  arith, Option-cases, inl, inr,
}
use dgou_framework.Base.Int.{pos}
use dgou_framework.Async.Pool.{
  PoolTask, count, Heap, Pool, new_pool, stop, offer, PoolEvent, submit_call, stop_call,
  dispatch_takes, dispatch_places, worker_takes, worker_finishes, worker_returns, start, submit,
  pop_queue, dispatch_take, dispatch_place, pool_step, pool_run,
}

count_true : (q : List PoolTask) → count (λ t. true) q ≡ length q
unfolding count
count_true [] = refl
count_true (t ∷ q) = ap suc (count_true q)

abbrev pub in_hand_size : Option PoolTask → ℕ
in_hand_size none = 0
in_hand_size (some t) = 1

in_hand_size-le : (o : Option PoolTask) → in_hand_size o ≤ 1
in_hand_size-le none = omega arith
in_hand_size-le (some t) = omega arith

module _ (h : Heap) where
  length-push : (t : PoolTask) (q : List PoolTask) → length (h.push t q) ≡ suc (length q)
  length-push t q =
      sym (count_true (h.push t q)) ∙ h.count-push (λ t. true) t q ∙ count_true (t ∷ q)

  length-heapify : (q : List PoolTask) → length (h.heapify q) ≡ length q
  length-heapify q = sym (count_true (h.heapify q)) ∙ h.count-heapify (λ t. true) q ∙ count_true q

  length-pop : (t : PoolTask) (q : List PoolTask) → length (h.pop t q).1 ≡ length q
  length-pop t q = omega (
    arith,
    sym (count_true ((h.pop t q).0 ∷ (h.pop t q).1))
        ∙ h.count-pop (λ t. true) t q
        ∙ count_true (t ∷ q),
  )

  -- The queue is a heap, and it holds no more than the limit; the task in the dispatcher's hand
  -- may come back on top of that.
  pub record PoolInv (max_queue : ℕ) (p : Pool) : Type 0 where
    pub heap : h.IsHeap p.queue
    pub limit : p.max_queue ≡ pos max_queue
    pub bound : length p.queue + in_hand_size p.in_hand ≤ max_queue + 1

  submit-PoolInv : (n : ℕ) (p : Pool) (t : PoolTask) → PoolInv n p → PoolInv n (submit h p t).0
  unfolding submit
  submit-PoolInv n p t v = record {
    heap = ground (arith, h.push-IsHeap t p.queue v.heap);
    limit = ground (arith, v.limit);
    bound = ground (arith, v.limit, v.bound, length-push t p.queue, in_hand_size-le p.in_hand);
  }

  pop_queue-PoolInv :
      (n : ℕ) (p : Pool) (q : List PoolTask)
      → p.queue ≡ q
      → p.in_hand ≡ none
      → PoolInv n p
      → PoolInv n (pop_queue h q p)
  pop_queue-PoolInv n p [] e free v = v
  pop_queue-PoolInv n p (t ∷ q) e free v = record {
    heap = h.pop-IsHeap t q (subst h.IsHeap e v.heap);
    limit = v.limit;
    bound = ground (arith, v.bound, length-pop t q);
  }

  dispatch_take-PoolInv : (n : ℕ) (p : Pool) → PoolInv n p → PoolInv n (dispatch_take h p)
  unfolding dispatch_take
  dispatch_take-PoolInv n p v = elim (Option-cases p.in_hand) [
    | inl free ↦ ground (arith, pop_queue-PoolInv n p p.queue refl free v)
    | inr (t, e) ↦ ground arith
  ]

  dispatch_place-PoolInv : (n : ℕ) (p : Pool) → PoolInv n p → PoolInv n (dispatch_place h p)
  unfolding dispatch_place
  dispatch_place-PoolInv n p v = elim (Option-cases p.in_hand) [
    | inl free ↦ ground (arith, free)
    | inr (t, e) ↦ elim (Option-cases (offer t p.workers)) [
      | inl full ↦ record {
        heap = ground (arith, h.push-IsHeap t p.queue v.heap);
        limit = ground (arith, v.limit);
        bound = ground (arith, v.bound, length-push t p.queue);
      }
      | inr (ws, found) ↦ record {
        heap = ground (arith, v.heap);
        limit = ground (arith, v.limit);
        bound = ground (arith, v.bound);
      }
    ]
  ]

  pool_step-PoolInv : (n : ℕ) (p : Pool) (e : PoolEvent) → PoolInv n p → PoolInv n (pool_step h p e)
  unfolding pool_step stop
  pool_step-PoolInv n p (submit_call t) v = submit-PoolInv n p t v
  pool_step-PoolInv n p stop_call v = record { heap = v.heap; limit = v.limit; bound = v.bound }
  pool_step-PoolInv n p dispatch_takes v = dispatch_take-PoolInv n p v
  pool_step-PoolInv n p dispatch_places v = dispatch_place-PoolInv n p v
  pool_step-PoolInv n p (worker_takes i) v = record {
    heap = v.heap;
    limit = v.limit;
    bound = v.bound;
  }
  pool_step-PoolInv n p (worker_finishes i) v = record {
    heap = v.heap;
    limit = v.limit;
    bound = v.bound;
  }
  pool_step-PoolInv n p (worker_returns i) v = record {
    heap = v.heap;
    limit = v.limit;
    bound = v.bound;
  }

  pool_run-PoolInv_lem :
      (n : ℕ) (p : Pool) (es : List PoolEvent) → PoolInv n p → PoolInv n (pool_run h p es)
  unfolding pool_run
  pool_run-PoolInv_lem n p [] v = v
  pool_run-PoolInv_lem n p (e ∷ es) v =
      pool_run-PoolInv_lem n (pool_step h p e) es (pool_step-PoolInv n p e v)

  started-PoolInv : (workers n : ℕ) → PoolInv n (start h (new_pool workers (pos n))).0
  unfolding start new_pool
  started-PoolInv workers n = record {
    heap = h.heapify-IsHeap [];
    limit = refl;
    bound = omega (arith, length-heapify []);
  }

  -- At all times of a run of a started pool its queue is a heap, and the queue and the
  -- dispatcher's task together are at most one task more than the limit.
  pub pool_run-PoolInv :
      (workers n : ℕ) (es : List PoolEvent)
      → PoolInv n (pool_run h (start h (new_pool workers (pos n))).0 es)
  pool_run-PoolInv workers n es =
      pool_run-PoolInv_lem n (start h (new_pool workers (pos n))).0 es (started-PoolInv workers n)
