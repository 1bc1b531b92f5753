-- ===== src/Async/Task/Retries.antt =====
-- The retry loop of `execute` when nobody interferes, so that the context stays live, nobody calls
-- `Cancel`, and each retry delay passes; and when the deadline passes in the wait for a retry.
use dgou_framework.Base.{
  ℕ, zero, suc, ◌+◌, ◌≡◌, refl, false, Option, none, some, List, [], ◌∷◌, arith,
}
use native.Mathlib.Nat.{add-zero, zero-add}
use dgou_framework.Base.Int.{ℤ, pos, ◌≤ℤ◌}
use dgou_framework.Async.Task.{
  success, failed, deadline, context_seen, TaskError, handler_error, gives, fails, live, loop_head,
  returned, System, Event, advance, handler_returns, delay_over, init, step, run,
}

-- Failing attempts from attempt `a` on, `n` of them, with their errors, and then `rest`.
abbrev pub failing : (ℕ → ℕ) → ℕ → ℕ → List Event → List Event
failing errors a zero rest = rest
failing errors a (suc n) rest =
    advance
    ∷ handler_returns (fails (errors a))
    ∷ advance
    ∷ delay_over
    ∷ failing errors (suc a) n rest

-- `execute` is at the head of the loop, undisturbed.
record Ready (max : ℤ) (a : ℕ) (s : System) : Type 0 where
  whole : s.crashed ≡ false
  alive : s.context ≡ live
  head : (last : Option TaskError) × (s.pc ≡ loop_head a last)
  opened : s.task.done_closed ≡ false
  limit : s.task.max_retries ≡ max
  counted : s.task.retry_count ≡ a

start-Ready : (max : ℤ) → Ready max 0 (step (init max) advance)
unfolding step init
start-Ready max = record {
  whole = refl;
  alive = refl;
  head = (none, refl);
  opened = refl;
  limit = refl;
  counted = refl;
}

abbrev round : ℕ → System → System
round e s = step (step (step (step s advance) (handler_returns (fails e))) advance) delay_over

-- A failed attempt below the limit leads to the next attempt.
round-Ready :
    (max : ℤ) (a e : ℕ) (s : System)
    → Ready max a s
    → pos (suc a) ≤ℤ max
    → Ready max (suc a) (round e s)
unfolding step
round-Ready max a e s r h = record {
  whole = ground arith;
  alive = ground arith;
  head = (some (handler_error e), ground arith);
  opened = ground arith;
  limit = ground arith;
  counted = ground arith;
}

failing-Ready :
    (max : ℤ) (errors : ℕ → ℕ) (a n : ℕ) (s : System) (rest : List Event)
    → Ready max a s
    → pos (a + n) ≤ℤ max
    → (s' : System) × (run s (failing errors a n rest) ≡ run s' rest) × Ready max (a + n) s'
unfolding run
failing-Ready max errors a zero s rest r h = (s, refl, rw add-zero r)
failing-Ready max errors a (suc n) s rest r h =
    let shift : suc a + n ≡ a + suc n = omega arith in
    let next = round-Ready max a (errors a) s r (omega arith) in
    let (s', runs, r') =
      failing-Ready max errors (suc a) n (round (errors a) s) rest next (omega arith) in
    (s', runs, rw shift at r')

abbrev pub last_success : ℕ → List Event
last_success r = advance ∷ handler_returns (gives r) ∷ advance ∷ []

abbrev pub last_failure : ℕ → List Event
last_failure e = advance ∷ handler_returns (fails e) ∷ advance ∷ advance ∷ []

ends_well :
    (max : ℤ) (a v : ℕ) (s : System)
    → Ready max a s
    → pos a ≤ℤ max
    → let s' = run s (last_success v) in
      (s'.pc ≡ returned)
      × (s'.task.state ≡ success)
      × (s'.task.result ≡ some v)
      × (s'.task.retry_count ≡ a)
unfolding run step
ends_well max a v s r h = ground arith

ends_badly :
    (a e : ℕ) (s : System)
    → Ready (pos a) a s
    → let s' = run s (last_failure e) in
      (s'.pc ≡ returned)
      × (s'.task.state ≡ failed)
      × (s'.task.error ≡ some (handler_error e))
      × (s'.task.retry_count ≡ suc a)
unfolding run step
ends_badly a e s r = ground arith

-- Where no deadline passes before the end, the pool's context does not end, nobody calls Cancel, and
-- every retry delay passes: a handler that fails `n` times and then gives `v`, with `n` within the
-- retry limit, ends the task in success with the result `v`, and `n` failures are counted.
pub retries_succeed :
    (max : ℤ) (errors : ℕ → ℕ) (n v : ℕ)
    → pos n ≤ℤ max
    → let s = run (step (init max) advance) (failing errors 0 n (last_success v)) in
      (s.pc ≡ returned)
      × (s.task.state ≡ success)
      × (s.task.result ≡ some v)
      × (s.task.retry_count ≡ n)
retries_succeed max errors n v h =
    let (s, runs, r) =
      failing-Ready max errors 0 n (step (init max) advance) (last_success v) (start-Ready max)
        (omega arith) in
    rw runs (ends_well max n v s (rw zero-add at r) h)

-- The failure of an attempt, and a deadline in the wait for the next one.
abbrev pub deadline_in_wait : ℕ → List Event
deadline_in_wait e = advance ∷ handler_returns (fails e) ∷ advance ∷ deadline ∷ context_seen ∷ []

-- A handler that fails in every one of the `n + 1` attempts that the limit `n` allows ends the
-- task in failure, with the error of the last attempt.
pub retries_exhausted :
    (errors : ℕ → ℕ) (n : ℕ)
    → let s = run (step (init (pos n)) advance) (failing errors 0 n (last_failure (errors n))) in
      (s.pc ≡ returned)
      × (s.task.state ≡ failed)
      × (s.task.error ≡ some (handler_error (errors n)))
      × (s.task.retry_count ≡ suc n)
retries_exhausted errors n =
    let (s, runs, r) =
      failing-Ready (pos n) errors 0 n (step (init (pos n)) advance) (last_failure (errors n))
        (start-Ready (pos n)) (omega arith) in
    rw runs (ends_badly n (errors n) s (rw zero-add at r))
