-- ===== src/Async/Task/Safety.antt =====
-- The task machine without calls of `Cancel`: what each place of `execute` says about the state of
-- the task and its channel.
use dgou_framework.Base.{
  ℕ, suc, ◌+◌, ◌≤◌, ◌≡◌, ◌≢◌, refl, ◌∙◌, true, false, List, [], ◌∷◌, All, arith,
}
use dgou_framework.Base.Int.{ℤ, pos, ◌≤ℤ◌, pos_part}
use dgou_framework.Async.Task.{
  TaskState, pending, running, Pc, entry, loop_head, in_handler, after_handler, retry_wait,
  returned, System, Event, cancel, init, step, run, is_final,
}

-- What the place says of the state: it is pending before, running during, and final after.
abbrev pub Phase : Pc → TaskState → Type 0
Phase entry st = st ≡ pending
Phase returned st = is_final st ≡ true
Phase _ st = st ≡ running

-- Where a handler may run, its attempt is within the limit; a failed attempt counts.
abbrev pub Within : Pc → ℤ → ℕ → Type 0
Within (loop_head a last) max r = (r ≡ a) × (a ≤ pos_part max + 1)
Within (in_handler a) max r = (r ≡ a) × (pos a ≤ℤ max)
Within (after_handler a out) max r = (r ≡ a) × (pos a ≤ℤ max)
Within (retry_wait a last) max r = (r ≡ suc a) × (suc a ≤ pos_part max + 1)
Within entry max r = r ≡ 0
Within _ max r = r ≤ pos_part max + 1

pub record Inv (s : System) : Type 0 where
  pub whole : s.crashed ≡ false
  pub closed : s.task.done_closed ≡ is_final s.task.state
  pub stamped : s.task.completed ≡ s.task.done_closed
  pub armed : s.task.state ≡ running → s.task.has_cancel ≡ true
  pub phase : Phase s.pc s.task.state
  pub within : Within s.pc s.task.max_retries s.task.retry_count

pub init-Inv : (max : ℤ) → Inv (init max)
unfolding init
init-Inv max = ground arith

pub step-Inv : (s : System) (e : Event) → e ≢ cancel → Inv s → Inv (step s e)
unfolding step
step-Inv s e n v = ground arith

pub run-Inv : (s : System) (es : List Event) → All (λ e. e ≢ cancel) es → Inv s → Inv (run s es)
unfolding run
run-Inv s [] h v = v
run-Inv s (e ∷ es) h v = run-Inv (step s e) es h.1 (step-Inv s e h.0 v)

max_retries-step : (s : System) (e : Event) → (step s e).task.max_retries ≡ s.task.max_retries
unfolding step
max_retries-step s e = ground arith

max_retries-run : (s : System) (es : List Event) → (run s es).task.max_retries ≡ s.task.max_retries
unfolding run
max_retries-run s [] = refl
max_retries-run s (e ∷ es) = max_retries-run (step s e) es ∙ max_retries-step s e

retry_count-le : (s : System) → Inv s → s.task.retry_count ≤ pos_part s.task.max_retries + 1
retry_count-le s v = ground arith

phase_returned : (s : System) → Inv s → s.pc ≡ returned → is_final s.task.state ≡ true
phase_returned s v p = ground arith

-- Whatever the context, the handler and the timers do, a task on which nobody calls `Cancel` never
-- closes its channel twice; the channel is closed exactly when the state is final, which it is
-- when `execute` has returned; and the failed calls are at most one more than the retry limit.
pub run_safe :
    (max : ℤ) (es : List Event)
    → All (λ e. e ≢ cancel) es
    → let s = run (init max) es in
      (s.crashed ≡ false)
      × (s.task.done_closed ≡ is_final s.task.state)
      × (s.pc ≡ returned → is_final s.task.state ≡ true)
      × (s.task.retry_count ≤ pos_part max + 1)
unfolding init
run_safe max es h =
    let v = run-Inv (init max) es h (init-Inv max) in
    (
      v.whole,
      v.closed,
      phase_returned (run (init max) es) v,
      rw (max_retries-run (init max) es) at (retry_count-le (run (init max) es) v),
    )

step_settled :
    (s : System) (e : Event)
    → s.pc ≡ returned
    → is_final s.task.state ≡ true
    → ((step s e).task ≡ s.task) × ((step s e).pc ≡ returned)
unfolding step
step_settled s e p f = ground arith

run_settled :
    (s : System) (es : List Event)
    → s.pc ≡ returned
    → is_final s.task.state ≡ true
    → (run s es).task ≡ s.task
unfolding run
run_settled s [] p f = refl
run_settled s (e ∷ es) p f =
    let (same, there) = step_settled s e p f in run_settled (step s e) es there (rw same f) ∙ same

-- In a state with the invariant of runs without Cancel, once the channel is closed no later
-- event, a Cancel included, changes the task.
pub settled :
    (s : System) (es : List Event) → Inv s → s.task.done_closed ≡ true → (run s es).task ≡ s.task
settled s es v c = run_settled s es (ground arith) (ground arith)
