-- ===== src/Async/Task.antt =====
-- pkg/async/async.go, the task: `execute` as a machine that moves from one access of the shared
-- task to the next, and the calls and events that may come between two of its moves: `Cancel`
-- from another goroutine, the deadline of the task's context, and the end of the pool's context.
-- The handler is a function from the attempt to what the call gives; a panic in it is recovered
-- to an error. Closing the channel `done` a second time is a run-time panic, which `crashed` marks:
-- nothing recovers it, so the process ends.
pub mod Safety
pub mod Cancellation
pub mod Retries
use dgou_framework.Base.{
  ℕ, zero, suc, ◌+◌, Bool, true, false, Option, none, some, List, [], ◌∷◌, ltb, ◌&&◌, if◌then◌else◌,
}
use dgou_framework.Base.Int.{ℤ, pos, leb_ℤ}

pub data TaskState : Type 0 where
  pending running success failed timeout cancelled : TaskState

-- What the code stores in `err`.
pub data TaskError : Type 0 where
  task_cancelled deadline_exceeded context_canceled not_completed : TaskError
  handler_error : ℕ → TaskError

-- the fields of `Task` that change, and the retry limit
pub record Task : Type 0 where
  pub max_retries : ℤ
  pub state : TaskState
  pub retry_count : ℕ
  pub has_cancel : Bool
  pub result : Option ℕ
  pub error : Option TaskError
  pub done_closed : Bool
  pub completed : Bool

-- What one call of the handler gives: a result, or an error or a recovered panic.
pub data Outcome : Type 0 where
  gives : ℕ → Outcome
  fails : ℕ → Outcome

-- the task's context
pub data ContextState : Type 0 where
  live expired ended : ContextState

-- Where `execute` stands.
pub data Pc : Type 0 where
  entry : Pc
  loop_head : (attempt : ℕ) → (last : Option TaskError) → Pc
  in_handler : (attempt : ℕ) → Pc
  after_handler : (attempt : ℕ) → Outcome → Pc
  retry_wait : (attempt : ℕ) → (last : TaskError) → Pc
  after_loop : (last : Option TaskError) → Pc
  returned : Pc

pub record System : Type 0 where
  pub task : Task
  pub context : ContextState
  pub pc : Pc
  pub crashed : Bool

-- `NewTask` and `WithRetries`
unfoldable pub new_task : ℤ → Task
new_task max_retries = record {
  max_retries = max_retries;
  state = pending;
  retry_count = 0;
  has_cancel = false;
  result = none;
  error = none;
  done_closed = false;
  completed = false;
}

unfoldable pub init : ℤ → System
unfolding new_task
init max_retries = record {
  task = new_task max_retries;
  context = live;
  pc = entry;
  crashed = false;
}

-- The end of `execute`: the task's last fields, `close(t.done)`, and the return.
unfoldable pub finish : TaskState → Option ℕ → Option TaskError → System → System
finish state result error s =
    let t = record s.task { state = state; result = result; error = error; completed = true } in
    if t.done_closed
    then record s { task = t; crashed = true }
    else record s { task = record t { done_closed = true }; pc = returned }

-- `taskCtx.Err()`
abbrev pub context_error : ContextState → Option TaskError
context_error live = none
context_error expired = some deadline_exceeded
context_error ended = some context_canceled

-- the `select` at the head of the retry loop
head_select : ContextState → ℕ → System → System
unfolding finish
head_select live attempt s = record s { pc = in_handler attempt }
head_select expired attempt s = finish timeout s.task.result (some deadline_exceeded) s
head_select ended attempt s = finish cancelled s.task.result (some context_canceled) s

-- After the handler: success, the last failure, or the wait before the next attempt.
after_call : ℕ → Outcome → System → System
unfolding finish
after_call attempt (gives r) s = finish success (some r) s.task.error s
after_call attempt (fails e) s =
    let s' = record s { task = record s.task { retry_count = suc attempt } } in
    if leb_ℤ s.task.max_retries (pos attempt)
    then record s' { pc = after_loop (some (handler_error e)) }
    else record s' { pc = retry_wait attempt (handler_error e) }

-- the entry of `execute`: only a pending task starts
at_entry : TaskState → System → System
at_entry pending s = record s {
  task = record s.task { state = running; has_cancel = true };
  pc = loop_head 0 none;
}
at_entry _ s = record s { pc = returned }

pub data Event : Type 0 where
  advance : Event  -- `execute` moves on
  handler_returns : Outcome → Event  -- the handler comes back
  delay_over : Event  -- `time.After(t.RetryDelay)` fires and is chosen
  context_seen : Event  -- the wait for the retry sees `taskCtx.Done()`
  deadline : Event  -- the task's timeout passes
  pool_ends : Event  -- the pool's context is cancelled
  cancel : Event  -- another goroutine calls `Cancel`

move : Pc → System → System
unfolding head_select after_call at_entry finish
move entry s = at_entry s.task.state s
move (loop_head attempt last) s =
    if leb_ℤ (pos attempt) s.task.max_retries
    then head_select s.context attempt s
    else record s { pc = after_loop last }
move (after_handler attempt out) s = after_call attempt out s
move (after_loop last) s = finish failed s.task.result last s
move _ s = s

handler_back : Pc → Outcome → System → System
handler_back (in_handler attempt) out s = record s { pc = after_handler attempt out }
handler_back _ out s = s

delay_back : Pc → System → System
delay_back (retry_wait attempt last) s = record s { pc = loop_head (suc attempt) (some last) }
delay_back _ s = s

-- The second `select` calls every end of the context a timeout.
wait_done : Pc → ContextState → System → System
unfolding finish
wait_done (retry_wait attempt last) live s = s
wait_done (retry_wait attempt last) c s = finish timeout s.task.result (context_error c) s
wait_done _ c s = s

-- An end of the context sticks.
abbrev pub end_context : ContextState → ContextState → ContextState
end_context live c = c
end_context c' c = c'

-- `Cancel`, on a running task with a cancel function; its result comes with the new state.
cancel_running : System → System
cancel_running s =
    let t = record s.task { state = cancelled; error = some task_cancelled; completed = true } in
    let s' = record s { task = t; context = end_context s.context ended } in
    if t.done_closed
    then record s' { crashed = true }
    else record s' { task = record t { done_closed = true } }

cancel_state : TaskState → Bool → System → System × Bool
unfolding cancel_running
cancel_state running true s = (cancel_running s, true)
cancel_state _ _ s = (s, false)

unfoldable pub cancel_task : System → System × Bool
unfolding cancel_state
cancel_task s = cancel_state s.task.state s.task.has_cancel s

respond : Event → System → System
unfolding move handler_back delay_back wait_done cancel_task
respond advance s = move s.pc s
respond (handler_returns out) s = handler_back s.pc out s
respond delay_over s = delay_back s.pc s
respond context_seen s = wait_done s.pc s.context s
respond deadline s = record s { context = end_context s.context expired }
respond pool_ends s = record s { context = end_context s.context ended }
respond cancel s = (cancel_task s).0

-- A process that has crashed does nothing more.
unfoldable pub step : System → Event → System
unfolding respond
step s e = if s.crashed then s else respond e s

unfoldable pub run : System → List Event → System
run s [] = s
run s (e ∷ es) = run (step s e) es

abbrev pub is_final : TaskState → Bool
is_final pending = false
is_final running = false
is_final _ = true

-- `Result`
unfoldable pub task_result : Task → Option ℕ × Option TaskError
task_result t = if is_final t.state then (t.result, t.error) else (none, some not_completed)
