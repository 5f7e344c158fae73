-- ===== src/Producer.antt =====
-- producer/producer.go and producer/priority.go: enqueueing a task on a stream, and on the stream of
-- its priority.
pub mod Enqueue
use Prim.Native.String.{String, ◌++◌}
use forge_task_queue.Common.{List, [], ◌∷◌, Action, pure, ◌>>=◌, ◌==◌, if◌then◌else◌}
use forge_task_queue.Task.{Task, Event, Result, ok, err, priority_high, priority_low}
use forge_task_queue.Task.Store.{StreamStore, EventPublisher}

pub record Producer (W : Type 0) : Type 0 where
  pub store : StreamStore W
  pub publisher : EventPublisher W
  pub stream : String

pub record PriorityProducer (W : Type 0) : Type 0 where
  pub store : StreamStore W
  pub publisher : EventPublisher W
  pub base_stream : String

abbrev pub pending : Task → Event
pending t = record { type = "Pending"; task_id = t.id; worker_id = "" }

module _ {W : Type 0} where
  -- `New`
  unfoldable pub new : StreamStore W → EventPublisher W → String → Producer W
  new store publisher stream = record { store = store; publisher = publisher; stream = stream }

  -- What follows the XADD: the event Pending, whose failure is logged and dropped.
  announce : EventPublisher W → Task → Result String → Action W (Result String)
  announce publisher t (err message) = pure (err message)
  announce publisher t (ok msg_id) = do r ← publisher.publish (pending t); pure (ok msg_id)

  unfoldable pub produce : Producer W → Task → Action W (Result String)
  unfolding announce
  produce p t = do r ← p.store.add p.stream t; announce p.publisher t r

  -- `NewPriorityProducer`
  unfoldable pub new_priority_producer :
      StreamStore W → EventPublisher W → String → PriorityProducer W
  new_priority_producer store publisher base = record {
    store = store;
    publisher = publisher;
    base_stream = base;
  }

-- `streamForPriority`, of the base stream's name and a priority.
unfoldable pub stream_for_priority : String → String → String
stream_for_priority base priority =
    if priority == priority_high
    then base ++ "_high"
    else if priority == priority_low
    then base ++ "_low"
    else base

-- `Streams`
unfoldable pub streams : String → List String
streams base = (base ++ "_high") ∷ base ∷ (base ++ "_low") ∷ []

module _ {W : Type 0} where
  unfoldable pub produce_by_priority : PriorityProducer W → Task → Action W (Result String)
  unfolding announce
  produce_by_priority pp t = do
    r ← pp.store.add (stream_for_priority pp.base_stream t.priority) t
    announce pp.publisher t r
