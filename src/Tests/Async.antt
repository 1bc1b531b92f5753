-- ===== src/Tests/Async.antt =====
-- The task machine and the pool at short runs.
use dgou_framework.Base.{◌+◌, ◌≤◌, ◌≡◌, refl, true, false, ◌≢◌, some, List, [], ◌∷◌, arith, All}
use dgou_framework.Base.Int.{pos}
use dgou_framework.Async.Task.{
  System, Event, advance, handler_returns, delay_over, context_seen, cancel, gives, fails, init,
  new_task, step, run, is_final, returned, cancel_task, success,
}
use dgou_framework.Async.Task.Safety.{run_safe, run-Inv, init-Inv, Inv}
use dgou_framework.Async.Task.Cancellation.{cancel_never_returns, cancel_crashes}
use dgou_framework.Async.Task.Retries.{failing, last_success, retries_succeed}

abbrev one_call : List Event
one_call = advance ∷ advance ∷ handler_returns (gives 5) ∷ advance ∷ []

one_call_no_cancel : All (λ e. e ≢ cancel) one_call
one_call_no_cancel = ((λ e. cc), ((λ e. cc), ((λ e. cc), ((λ e. cc), tt))))

run_safe_example :
    let s = run (init (pos 3)) one_call in
    (s.crashed ≡ false)
    × (s.task.done_closed ≡ is_final s.task.state)
    × (s.pc ≡ returned → is_final s.task.state ≡ true)
    × (s.task.retry_count ≤ 4)
run_safe_example = run_safe (pos 3) one_call one_call_no_cancel

abbrev executing : System
executing = run (init (pos 3)) (advance ∷ advance ∷ [])

executing-Inv : Inv executing
executing-Inv =
    run-Inv (init (pos 3)) (advance ∷ advance ∷ []) ((λ e. cc), ((λ e. cc), tt)) (init-Inv (pos 3))

cancel_crashes_example :
    (run
      (step executing cancel)
      (handler_returns (gives 5) ∷ advance ∷ context_seen ∷ advance ∷ [])).crashed
    ≡ true
unfolding run init new_task step
cancel_crashes_example = cancel_crashes executing 0 (gives 5) executing-Inv refl

cancel_never_returns_example :
    ((cancel_task executing).1 ≡ true)
    × ((run
          (step executing cancel)
          (handler_returns (fails 2) ∷ advance ∷ delay_over ∷ advance ∷ [])).pc
        ≢ returned)
unfolding run init new_task step
cancel_never_returns_example =
    cancel_never_returns executing (handler_returns (fails 2) ∷ advance ∷ delay_over ∷ advance ∷ [])
      executing-Inv refl

retries_succeed_example :
    let s = run (step (init (pos 3)) advance) (failing (λ i. i + 10) 0 2 (last_success 7)) in
    (s.pc ≡ returned)
    × (s.task.state ≡ success)
    × (s.task.result ≡ some 7)
    × (s.task.retry_count ≡ 2)
retries_succeed_example = retries_succeed (pos 3) (λ i. i + 10) 2 7 (ground arith)
