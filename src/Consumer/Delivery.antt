-- ===== src/Consumer/Delivery.antt =====
-- What one delivery of a message does, in every environment: the calls that it makes, in order.
use Prim.Native.String.{String}
use forge_task_queue.Common.{
  ℕ, false, Option, nat_eq, ◌+◌, ◌≡◌, ◌⊎◌, none, some, List, [], ◌∷◌, arith, if◌then◌else◌,
}
use forge_task_queue.Common.Int.{ℤ, ltb_ℤ, inc}
use forge_task_queue.Task.{Task, Event, ok}
use forge_task_queue.Task.Codec.{TimeFormat, unmarshal}
use forge_task_queue.Task.Store.{StreamMessage, returned, panicked, payload_of}
use forge_task_queue.Calls.{
  Counter, adds, events, is_success, is_seen, is_saved, Call, Log, Environment, recorded_store,
  recorded_publisher, recorded_processor, recorded_checker, recorded_metrics, count_calls, is_ack,
  is_failed_add,
}
use forge_task_queue.Consumer.{
  Consumer, Exit, finished, escaped, event, worker_name, process_message,
}

-- The consumer `c` with its services replaced by those of a recorded environment.
abbrev pub recorded : Environment → Consumer Log → Consumer Log
recorded env c = record c {
  store = recorded_store env;
  publisher = recorded_publisher env;
  processor = recorded_processor env;
  idempotency = elim c.idempotency [ none ↦ none | some _ ↦ some (recorded_checker env) ];
}

-- What must be added after the calls of Process in a log: after an error the task with the error's
-- message, once more to the stream while it has retries left, else to the dead-letter stream.
abbrev pub due_adds : Consumer Log → Log → List (String × Task)
due_adds c [] = []
due_adds c (Call.process _ _ (returned t (some message)) ∷ w) =
    if ltb_ℤ t.current_retries t.max_retries
    then (c.stream, record t { error = message; current_retries = inc t.current_retries })
      ∷ due_adds c w
    else (c.dlq_stream, record t { error = message }) ∷ due_adds c w
due_adds c (_ ∷ w) = due_adds c w

-- The events due around the calls of Process in a log, the latest first.
abbrev pub due_events : String → Consumer Log → Log → List Event
due_events worker c [] = []
due_events worker c (Call.process _ given (panicked _) ∷ w) =
    event "Processing" given worker ∷ due_events worker c w
due_events worker c (Call.process _ given (returned t none) ∷ w) =
    event "Completed" t worker ∷ event "Processing" given worker ∷ due_events worker c w
due_events worker c (Call.process _ given (returned t (some _)) ∷ w) =
    if ltb_ℤ t.current_retries t.max_retries
    then event "Failed" t worker ∷ event "Processing" given worker ∷ due_events worker c w
    else event "DLQ" t worker
      ∷ event "Failed" t worker
      ∷ event "Processing" given worker
      ∷ due_events worker c w
due_events worker c (_ ∷ w) = due_events worker c w

-- The counters of a log, the latest first.
abbrev pub counters : Log → List Counter
counters [] = []
counters (Call.count k ∷ w) = k ∷ counters w
counters (_ ∷ w) = counters w

-- The counters due after the calls of Process and of the idempotency check in a log: that of the
-- dead-letter stream whatever becomes of the XADD to it.
abbrev pub due_counters : Log → List Counter
due_counters [] = []
due_counters (Call.process _ _ (returned t none) ∷ w) =
    Counter.processed t.type "success" ∷ Counter.duration t.type ∷ due_counters w
due_counters (Call.process _ _ (returned t (some _)) ∷ w) =
    if ltb_ℤ t.current_retries t.max_retries
    then Counter.failed t.type
      ∷ Counter.processed t.type "error"
      ∷ Counter.duration t.type
      ∷ due_counters w
    else Counter.dlq t.type
      ∷ Counter.failed t.type
      ∷ Counter.processed t.type "error"
      ∷ Counter.duration t.type
      ∷ due_counters w
due_counters (Call.check _ (ok false) ∷ w) = Counter.duplicate ∷ due_counters w
due_counters (_ ∷ w) = due_counters w

-- The message carries no payload text, or a text that is no task.
abbrev pub Undecodable : TimeFormat → StreamMessage → Type 0
Undecodable times msg = elim (payload_of msg) [
  | none ↦ Unit
  | some p ↦ unmarshal ⦃times = times⦄ p ≡ none
]

-- The runs of a log, the latest first: the time limit and the task that Process was given.
abbrev pub runs : Log → List (Option ℤ × Task)
runs [] = []
runs (Call.process d t _ ∷ w) = (d, t) ∷ runs w
runs (_ ∷ w) = runs w

-- What must be run for a message: the task that it holds, with the task's own time limit, unless
-- the idempotency check said that it was seen before.
abbrev pub due_runs : TimeFormat → StreamMessage → Log → List (Option ℤ × Task)
due_runs times msg w = elim (payload_of msg) [
  | none ↦ []
  | some p ↦ elim (unmarshal ⦃times = times⦄ p) [
    | none ↦ []
    | some t ↦ if nat_eq (count_calls is_seen w) 0 then (t.timeout, t) ∷ [] else []
  ]
]

module _ ⦃times : TimeFormat⦄ (env : Environment) (c : Consumer Log) (id : ℕ)
    (msg : StreamMessage) where
  -- One delivery, from an empty log: the environment may stand for any earlier calls.
  abbrev pub delivery : Exit × Log
  delivery = process_message recorded_metrics (recorded env c) id msg []

  -- A delivery that returns makes exactly one XACK, or exactly one XADD that fails, and never both.
  pub settled_once :
      delivery.0 ≡ finished
      → count_calls is_ack delivery.1 + count_calls is_failed_add delivery.1 ≡ 1
  unfolding process_message
  settled_once h = ground arith

  -- A delivery runs the task that its message holds exactly once, with the task's own time limit,
  -- unless the idempotency check said that it was seen before; then, and for a message that holds
  -- no task, it runs nothing.
  pub runs-due : runs delivery.1 ≡ due_runs times msg delivery.1
  unfolding process_message
  runs-due = ground arith

  -- A delivery that the panic of the task's code ends makes no XACK and no XADD.
  panic_keeps_message :
      (message : String)
      → delivery.0 ≡ escaped message
      → (count_calls is_ack delivery.1 ≡ 0) × (adds delivery.1 ≡ [])
  unfolding process_message
  panic_keeps_message message h = ground arith

  -- The XADDs of a delivery are those due after its calls of Process: none after a success or a
  -- panic; after an error one, of the task with the error's message, to the stream with one more
  -- retry counted while retries are left, and else to the dead-letter stream.
  pub adds-due : adds delivery.1 ≡ due_adds c delivery.1
  unfolding process_message
  adds-due = ground arith

  -- The events that a delivery publishes are those due around its calls of Process, in order:
  -- Processing before each; Completed after a success; Failed after an error, and then DLQ if no
  -- retries are left; none if it makes no call of Process.
  pub events-due : events delivery.1 ≡ due_events (worker_name c.consumer id) c delivery.1
  unfolding process_message
  events-due = ground arith

  -- The counters that a delivery increments are those due after its calls of Process and of the
  -- idempotency check, in order: after a run that returns the duration, then the processed counter
  -- with its status and, after an error, the failure counter and, with no retries left, that of the
  -- dead-letter stream, whatever becomes of the XADD to it; after a check that says seen the
  -- duplicate counter; and no other.
  pub counters-due : counters delivery.1 ≡ due_counters delivery.1
  unfolding process_message
  counters-due = ground arith

  -- If a delivery acknowledges its message, then the message holds no task, or the idempotency
  -- check said that the task was seen before, or the task's run succeeded, or a copy of the task
  -- was saved by an XADD that went through.
  ack-justified :
      count_calls is_ack delivery.1 ≡ 1
      → Undecodable times msg
        ⊎ (count_calls is_seen delivery.1 ≡ 1)
        ⊎ (count_calls is_success delivery.1 ≡ 1)
        ⊎ (count_calls is_saved delivery.1 ≡ 1)
  unfolding process_message
  ack-justified h = ground arith
