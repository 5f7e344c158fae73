-- ===== src/PriorityConsumer/Delivery.antt =====
-- What one delivery to the priority consumer does, in every environment.
use Prim.Native.String.{String, ◌++◌}
use forge_task_queue.Common.{◌≡◌, ◌≢◌, sym, Option, none, some, List, [], ◌∷◌, arith, if◌then◌else◌}
use forge_task_queue.Common.Int.{ℤ, ltb_ℤ, inc}
use forge_task_queue.Common.Text.{append-ne_self}
use forge_task_queue.Task.{Task}
use forge_task_queue.Task.Codec.{TimeFormat, unmarshal}
use forge_task_queue.Task.Store.{StreamMessage, returned, payload_of}
use forge_task_queue.Calls.{
  adds, is_success, is_saved, Call, Log, Environment, recorded_store, recorded_publisher,
  recorded_processor, count_calls, acks, is_failed_add,
}
use forge_task_queue.Consumer.{Exit, finished, escaped}
use forge_task_queue.Consumer.Delivery.{Undecodable, runs}
use forge_task_queue.PriorityConsumer.{stream_for_priority, PriorityConsumer, process_message}

-- The priority consumer `pc` with the services of a recorded environment.
abbrev pub recorded : Environment → PriorityConsumer Log → PriorityConsumer Log
recorded env pc = record pc {
  store = recorded_store env;
  publisher = recorded_publisher env;
  processor = recorded_processor env;
}

-- The streams of the XACKs in a log, the latest first.
abbrev pub ack_streams : Log → List String
ack_streams [] = []
ack_streams (Call.ack s _ _ _ ∷ w) = s ∷ ack_streams w
ack_streams (_ ∷ w) = ack_streams w

-- The XADDs due after the calls of Process in a log.
abbrev pub due_adds : PriorityConsumer Log → Log → List (String × Task)
due_adds pc [] = []
due_adds pc (Call.process _ given (returned t (some _)) ∷ w) =
    if ltb_ℤ t.current_retries t.max_retries
    then (
      stream_for_priority pc.base_stream given.priority,
      record t { current_retries = inc t.current_retries },
    )
      ∷ due_adds pc w
    else (pc.base_stream ++ "_dlq", t) ∷ due_adds pc w
due_adds pc (_ ∷ w) = due_adds pc w

-- The stream that the consumer takes a message to come from.
abbrev pub presumed_stream : TimeFormat → PriorityConsumer Log → StreamMessage → String
presumed_stream times pc msg = elim (payload_of msg) [
  | none ↦ pc.base_stream
  | some p ↦ elim (unmarshal ⦃times = times⦄ p) [
    | none ↦ pc.base_stream
    | some t ↦ stream_for_priority pc.base_stream t.priority
  ]
]

-- What must be run for a message: the task that it holds, with no time limit.
abbrev pub due_runs : TimeFormat → StreamMessage → List (Option ℤ × Task)
due_runs times msg = elim (payload_of msg) [
  | none ↦ []
  | some p ↦ elim (unmarshal ⦃times = times⦄ p) [ none ↦ [] | some t ↦ (none, t) ∷ [] ]
]

module _ ⦃times : TimeFormat⦄ (env : Environment) (pc : PriorityConsumer Log)
    (msg : StreamMessage) where
  abbrev pub delivery : Exit × Log
  delivery = process_message (recorded env pc) msg []

  -- A delivery to the priority consumer runs the task that its message holds exactly once, with no
  -- time limit, whatever limit the task has; for a message that holds no task it runs nothing.
  pub priority_runs-due : runs delivery.1 ≡ due_runs times msg
  unfolding process_message
  priority_runs-due = ground arith

  -- One delivery to the priority consumer adds a failed task where it is due: again to the stream
  -- of the priority that the task had before it was run, with one more retry counted, or, with its
  -- retries used up, to the dead-letter stream.
  pub priority_adds-due : adds delivery.1 ≡ due_adds pc delivery.1
  unfolding process_message
  priority_adds-due = ground arith

  -- A delivery to the priority consumer that returns makes one XACK, on the stream presumed from
  -- the payload, whatever the XADD before it replied; one that panics makes none.
  pub ack_streams-delivery :
      ack_streams delivery.1
      ≡ elim delivery.0 [ finished ↦ presumed_stream times pc msg ∷ [] | escaped _ ↦ [] ]
  unfolding process_message
  ack_streams-delivery = ground arith

  -- The message acknowledged is the one delivered, in the consumer's group.
  pub acks-delivery :
      delivery.0 ≡ finished
      → acks delivery.1 ≡ (presumed_stream times pc msg, pc.group, msg.id) ∷ []
  unfolding process_message
  acks-delivery h = ground arith

  -- A delivery to the priority consumer in which an XADD fails makes one XACK all the same, of its
  -- own message's id, in the group and on the stream presumed from the payload, although no run
  -- succeeded and no copy of the task was saved.
  pub failed_add_loses_task :
      count_calls is_failed_add delivery.1 ≡ 1
      → (acks delivery.1 ≡ (presumed_stream times pc msg, pc.group, msg.id) ∷ [])
        × (count_calls is_success delivery.1 ≡ 0)
        × (count_calls is_saved delivery.1 ≡ 0)
  unfolding process_message
  failed_add_loses_task h = ground arith

  -- A message with no task in it is acknowledged by the priority consumer on the base stream alone,
  -- which is neither the high nor the low stream, whichever of the three it was read from.
  pub ack_streams-Undecodable :
      Undecodable times msg
      → (ack_streams delivery.1 ≡ pc.base_stream ∷ [])
        × (pc.base_stream ≢ pc.base_stream ++ "_high")
        × (pc.base_stream ≢ pc.base_stream ++ "_low")
  unfolding process_message
  ack_streams-Undecodable h = (
    ground arith,
    (λ e. append-ne_self pc.base_stream "_high" (omega arith) (sym e)),
    (λ e. append-ne_self pc.base_stream "_low" (omega arith) (sym e)),
  )
