-- ===== src/PriorityConsumer.antt =====
-- consumer/priority_consumer.go: how the priority consumer handles one message; `Fetch` models how
-- it starts and reads its streams.
pub mod Delivery
pub mod Fetch
pub mod Workers
pub mod Lifecycle
pub mod Pipeline
use Prim.Native.String.{String, ◌++◌}
use forge_task_queue.Common.{
  ℕ, Bool, true, false, Option, none, some, List, [], ◌∷◌, Action, pure, ◌>>=◌, ◌>>◌, ◌==◌,
  if◌then◌else◌,
}
use forge_task_queue.Common.Int.{ℤ, inc, ltb_ℤ}
use forge_task_queue.Task.{priority_high, priority_low, Task, Event, Result, ok, err}
use forge_task_queue.Task.Codec.{TimeFormat, unmarshal}
use forge_task_queue.Task.Store.{
  StreamMessage, Block, StreamStore, EventPublisher, TaskProcessor, Outcome, returned, panicked,
  payload_of,
}
use forge_task_queue.Consumer.{Exit, finished, escaped, Departure, drained, recovered}
use forge_task_queue.Producer.{streams}

pub record PriorityConsumer (W : Type 0) : Type 0 where
  pub store : StreamStore W
  pub publisher : EventPublisher W
  pub processor : TaskProcessor W
  pub base_stream : String
  pub group : String
  pub consumer : String
  pub worker_count : ℤ
  pub fetch_batch_size : ℤ
  pub block_timeout : ℤ
  pub max_retries : ℤ

-- `NewPriorityConsumer`
unfoldable pub new_priority_consumer :
    {W : Type 0}
    → StreamStore W
    → EventPublisher W
    → TaskProcessor W
    → String
    → String
    → String
    → ℤ
    → ℤ
    → ℤ
    → ℤ
    → PriorityConsumer W
new_priority_consumer store publisher processor base group consumer workers batch block retries =
    record {
      store = store;
      publisher = publisher;
      processor = processor;
      base_stream = base;
      group = group;
      consumer = consumer;
      worker_count = workers;
      fetch_batch_size = batch;
      block_timeout = block;
      max_retries = retries;
    }

-- `streamForPriority`, of the base stream's name and a priority.
unfoldable pub stream_for_priority : String → String → String
stream_for_priority base priority =
    if priority == priority_high
    then base ++ "_high"
    else if priority == priority_low
    then base ++ "_low"
    else base

module _ {W : Type 0} ⦃times : TimeFormat⦄ (pc : PriorityConsumer W) where
  -- An XACK, whose error is dropped.
  ack_on : String → String → Action W Exit
  ack_on stream msg_id = do r ← pc.store.ack stream pc.group msg_id; pure finished

  -- What follows `Process`: the replies of the XADD and of the publication are dropped.
  conclude : String → String → Outcome → Action W Exit
  unfolding ack_on
  conclude source msg_id (panicked message) = pure (escaped message)
  conclude source msg_id (returned t none) = ack_on source msg_id
  conclude source msg_id (returned t (some _)) =
      if ltb_ℤ t.current_retries t.max_retries
      then (do
        r ← pc.store.add source (record t { current_retries = inc t.current_retries })
        ack_on source msg_id)
      else (do
        r ← pc.store.add (pc.base_stream ++ "_dlq") t
        p ← pc.publisher.publish (record { type = "DLQ"; task_id = t.id; worker_id = "" })
        ack_on source msg_id)

  unfoldable pub process_message : StreamMessage → Action W Exit
  unfolding conclude ack_on
  process_message msg = elim (payload_of msg) [
    | none ↦ ack_on pc.base_stream msg.id
    | some payload ↦ elim (unmarshal payload) [
      | none ↦ ack_on pc.base_stream msg.id
      | some t ↦ do
        outcome ← pc.processor.process none t
        conclude (stream_for_priority pc.base_stream t.priority) msg.id outcome
    ]
  ]

  -- `worker`, over the messages that it receives until the channel is closed. The recovery logs the
  -- panic and counts nothing.
  unfoldable pub worker : List StreamMessage → Action W Departure
  worker [] = pure drained
  worker (msg ∷ rest) = do
    e ← process_message msg
    elim e [ finished ↦ worker rest | escaped message ↦ pure (recovered message) ]
