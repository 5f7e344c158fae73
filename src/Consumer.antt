-- ===== src/Consumer.antt =====
-- consumer/consumer.go: how a consumer handles one message of its stream, and what a worker does
-- with the messages that it receives. Logging is left out, and a duration is measured but its value
-- is not modelled.
pub mod Delivery
pub mod Keys
pub mod Lifecycle
pub mod Workers
pub mod Durability
use Prim.Native.String
use Prim.Native.String.{String}
use forge_task_queue.Common.{
  ℕ, ◌≡◌, refl, Bool, true, false, not, ◌&&◌, Option, none, some, List, [], ◌∷◌, Action, pure,
  ◌>>=◌, ◌>>◌, ◌==◌, if◌then◌else◌,
}
use forge_task_queue.Common.Int.{ℤ, inc, ltb_ℤ}
use forge_task_queue.Common.Text.{decimal}
use forge_task_queue.Task.{Task, Event, Result, ok, err}
use forge_task_queue.Task.Codec.{TimeFormat, unmarshal}
use forge_task_queue.Task.Store.{
  StreamMessage, Block, StreamStore, EventPublisher, TaskProcessor, Outcome, returned, panicked,
  IdempotencyChecker, payload_of,
}
use forge_task_queue.Metrics.{Metrics}

pub record Consumer (W : Type 0) : Type 0 where
  pub store : StreamStore W
  pub publisher : EventPublisher W
  pub processor : TaskProcessor W
  -- optional, nil to disable
  pub idempotency : Option (IdempotencyChecker W)
  pub stream : String
  pub group : String
  pub consumer : String
  pub worker_count : ℤ
  pub fetch_batch_size : ℤ
  pub block_timeout : ℤ
  pub dlq_stream : String
  pub max_retries : ℤ

-- How the handling of a message ends: it returns, or the panic of the task's code goes through it.
pub data Exit : Type 0 where
  finished : Exit
  escaped : String → Exit

-- How a worker returns: the channel was closed, or it recovered from a panic.
pub data Departure : Type 0 where
  drained : Departure
  recovered : String → Departure

abbrev pub event : String → Task → String → Event
event ty t worker = record { type = ty; task_id = t.id; worker_id = worker }

-- `fmt.Sprintf("%s-%d", c.consumer, workerID)`
unfoldable pub worker_name : String → ℕ → String
worker_name consumer id = String.◌++◌ consumer (String.◌++◌ "-" (decimal id))

module _ {W : Type 0} where
  -- `New` and `WithIdempotency`.
  unfoldable pub new :
      StreamStore W
      → EventPublisher W
      → TaskProcessor W
      → String
      → String
      → String
      → ℤ
      → ℤ
      → ℤ
      → String
      → ℤ
      → Consumer W
  new store publisher processor stream group consumer workers batch block dlq retries = record {
    store = store;
    publisher = publisher;
    processor = processor;
    idempotency = none;
    stream = stream;
    group = group;
    consumer = consumer;
    worker_count = workers;
    fetch_batch_size = batch;
    block_timeout = block;
    dlq_stream = dlq;
    max_retries = retries;
  }

  unfoldable pub with_idempotency : Consumer W → IdempotencyChecker W → Consumer W
  with_idempotency c checker = record c { idempotency = some checker }

module _ {W : Type 0} ⦃times : TimeFormat⦄ (metrics : Metrics W) (c : Consumer W) where
  -- An error of the store is logged and dropped.
  acknowledge : String → Action W (Unit {0})
  acknowledge msg_id = do r ← c.store.ack c.stream c.group msg_id; pure tt

  publish_event : Event → Action W (Unit {0})
  publish_event e = do r ← c.publisher.publish e; pure tt

  -- What follows an XADD: the original message is acknowledged, unless the XADD failed.
  settle : String → Result String → Action W (Unit {0})
  unfolding acknowledge
  settle msg_id (ok _) = acknowledge msg_id
  settle msg_id (err _) = pure tt

  handle_task_failure : Task → String → String → String → Action W (Unit {0})
  unfolding settle publish_event
  handle_task_failure t msg_id message worker =
      let t = record t { error = message } in
      if ltb_ℤ t.current_retries t.max_retries
      then (do
        r ← c.store.add c.stream (record t { current_retries = inc t.current_retries })
        settle msg_id r)
      else (do
        metrics.tasks_dlq t.type
        publish_event (event "DLQ" t worker)
        r ← c.store.add c.dlq_stream t
        settle msg_id r)

  -- Whether the idempotency check says that the task was seen before; a check that fails says no.
  abbrev seen : Result Bool → Bool
  seen (ok is_new) = not is_new
  seen (err _) = false

  pub is_duplicate : Task → Action W Bool
  is_duplicate t = elim c.idempotency [
    | none ↦ pure false
    | some checker ↦
        if t.idempotency_key == ""
        then pure false
        else (do r ← checker.check t.idempotency_key; pure (seen r))
  ]

  -- What follows `Process`.
  conclude : String → String → Outcome → Action W Exit
  unfolding handle_task_failure publish_event acknowledge
  conclude msg_id worker (panicked message) = pure (escaped message)
  conclude msg_id worker (returned t (some message)) = do
    metrics.task_duration t.type
    metrics.tasks_processed t.type "error"
    metrics.tasks_failed t.type
    publish_event (event "Failed" t worker)
    handle_task_failure t msg_id message worker
    pure finished
  conclude msg_id worker (returned t none) = do
    metrics.task_duration t.type
    metrics.tasks_processed t.type "success"
    publish_event (event "Completed" t worker)
    acknowledge msg_id
    pure finished

  -- `processMessage` from the event Processing on.
  run_task : ℕ → String → Task → Action W Exit
  unfolding conclude publish_event
  run_task worker_id msg_id t =
      let worker = worker_name c.consumer worker_id in
      do
        publish_event (event "Processing" t worker)
        outcome ← c.processor.process t.timeout t
        conclude msg_id worker outcome

  unfoldable pub process_message : ℕ → StreamMessage → Action W Exit
  unfolding run_task is_duplicate acknowledge
  process_message worker_id msg = elim (payload_of msg) [
    | none ↦ do acknowledge msg.id; pure finished
    | some payload ↦ elim (unmarshal payload) [
      | none ↦ do acknowledge msg.id; pure finished
      | some t ↦ do
        duplicate ← is_duplicate t
        if duplicate
            then (do metrics.tasks_duplicate; acknowledge msg.id; pure finished)
            else run_task worker_id msg.id t
    ]
  ]

  -- `worker`, over the messages that it receives until the channel is closed. The recovery counts
  -- the panic; the worker returns with it, and what comes after is left to the others.
  unfoldable pub worker : ℕ → List StreamMessage → Action W Departure
  worker worker_id [] = pure drained
  worker worker_id (msg ∷ rest) = do
    e ← process_message worker_id msg
    elim e [
      | finished ↦ worker worker_id rest
      | escaped message ↦ do metrics.worker_panics; pure (recovered message)
    ]

  -- What `Start` does before its goroutines: without the group it returns an error.
  unfoldable pub prepare : Action W (Result (Unit {0}))
  prepare = do
    r ← c.store.create_group c.stream c.group
    pure (elim r [ ok u ↦ ok u | err e ↦ err (String.◌++◌ "failed to create consumer group: " e) ])
