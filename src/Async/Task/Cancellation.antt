-- ===== src/Async/Task/Cancellation.antt =====
-- What `Cancel` does to a task that is running.
use dgou_framework.Base.{ℕ, ◌≡◌, ◌≢◌, Bool, true, false, List, [], ◌∷◌, arith}
use dgou_framework.Async.Task.{
  Outcome, Pc, entry, in_handler, returned, System, Event, advance, handler_returns, context_seen,
  cancel, cancel_task, step, run, is_final,
}
use dgou_framework.Async.Task.Safety.{Inv}

-- `execute` is between its entry and its return.
abbrev pub is_active : Pc → Bool
is_active entry = false
is_active returned = false
is_active _ = true

-- The channel is closed while `execute` has still to close it.
pub record Doomed (s : System) : Type 0 where
  pub closed : s.task.done_closed ≡ true
  pub active : is_active s.pc ≡ true
  pub final : is_final s.task.state ≡ true

cancel-Doomed :
    (s : System)
    → Inv s
    → is_active s.pc ≡ true
    → Doomed (step s cancel) × ((cancel_task s).1 ≡ true)
unfolding step cancel_task
cancel-Doomed s v a = ground arith

step-Doomed : (s : System) (e : Event) → Doomed s → Doomed (step s e)
unfolding step
step-Doomed s e d = ground arith

run-Doomed : (s : System) (es : List Event) → Doomed s → Doomed (run s es)
unfolding run
run-Doomed s [] d = d
run-Doomed s (e ∷ es) d = run-Doomed (step s e) es (step-Doomed s e d)

-- A `Cancel` that comes while `execute` runs is accepted and closes the channel; from then on, no
-- events whatever let `execute` return.
pub cancel_never_returns :
    (s : System) (es : List Event)
    → Inv s
    → is_active s.pc ≡ true
    → ((cancel_task s).1 ≡ true) × ((run (step s cancel) es).pc ≢ returned)
cancel_never_returns s es v a =
    let (d, accepted) = cancel-Doomed s v a in
    (accepted, λ r. ground (arith, (run-Doomed (step s cancel) es d).active))

-- From a state with the invariant in which the handler runs, a Cancel and then the handler's
-- return, with a result, an error or a recovered panic, lead within three more events to a close
-- of the closed channel: the process crashes.
pub cancel_crashes :
    (s : System) (attempt : ℕ) (out : Outcome)
    → Inv s
    → s.pc ≡ in_handler attempt
    → (run (step s cancel) (handler_returns out ∷ advance ∷ context_seen ∷ advance ∷ [])).crashed
      ≡ true
unfolding run step
cancel_crashes s attempt out v p = ground arith
