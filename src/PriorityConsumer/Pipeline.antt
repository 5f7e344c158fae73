-- ===== src/PriorityConsumer/Pipeline.antt =====
-- From the priority producer to the priority consumer: producer/priority.go, redisadapter/adapter.go
-- and consumer/priority_consumer.go together.
use Prim.Native.String.{String}
use mathlib.Core.List.{Memᴰ}
use forge_task_queue.Common.{◌≡◌, ◌≢◌, refl, ap, ◌∙◌, none, [], ◌∷◌, ◌++◌ as append, arith}
use forge_task_queue.Task.{Task, Event, Result, ok}
use forge_task_queue.Task.Json.{JsonText}
use forge_task_queue.Task.Codec.{TimeFormat, IsTimeFormat, marshal}
use forge_task_queue.Task.Codec.RoundTrip.{decoded_payload, IsSized, unmarshal-marshal}
use forge_task_queue.Task.Store.{StreamMessage, EventPublisher, text, payload_of}
use forge_task_queue.Calls.{Log, Environment, acks}
use forge_task_queue.Consumer.{finished}
use forge_task_queue.Consumer.Delivery.{runs}
use forge_task_queue.Producer
use forge_task_queue.Producer.{new_priority_producer, produce_by_priority, streams}
use forge_task_queue.Producer.Enqueue.{stream_for_priority-listed}
use forge_task_queue.RedisAdapter.{add, store, message_of}
use forge_task_queue.RedisAdapter.Client.{RedisClient, XMessage}
use forge_task_queue.RedisAdapter.Streams.{Streams, add_entry}
use forge_task_queue.PriorityConsumer.{PriorityConsumer, stream_for_priority}
use forge_task_queue.PriorityConsumer.Delivery.{
  delivery, presumed_stream, due_runs, priority_runs-due, acks-delivery,
}

-- The two methods `streamForPriority` agree.
stream_for_priority-eq :
    (base p : String) → stream_for_priority base p ≡ Producer.stream_for_priority base p
unfolding stream_for_priority Producer.stream_for_priority
stream_for_priority-eq base p = refl

module _ {W : Type 0} ⦃times : TimeFormat⦄ (client : RedisClient W) (redis : Streams client)
    (publisher : EventPublisher W) (base : String) where
  -- The producer over the adapter.
  abbrev pub enqueued : Task → W → Result String × W
  enqueued t w = produce_by_priority (new_priority_producer (store client) publisher base) t w

  produced_ok :
      (t : Task) (i : String) (w : W)
      → (enqueued t w).0 ≡ ok i
      → let s = Producer.stream_for_priority base t.priority in
        ((add client s t w).0 ≡ ok i)
        × ((enqueued t w).1 ≡ (publisher.publish (Producer.pending t) (add client s t w).1).1)
  unfolding produce_by_priority new_priority_producer
  produced_ok t i w e = ground arith

  -- The delivery of a message that an XADD of a task left.
  delivered :
      (env : Environment) (pc : PriorityConsumer Log) (t : Task) (i : String) (j : JsonText)
      → IsTimeFormat times
      → IsSized t
      → marshal t ≡ ok j
      → let d =
          delivery env pc (message_of (record { id = i; values = ("payload", text j) ∷ [] })) in
        (runs d.1 ≡ (none, record t { payload = decoded_payload t.payload }) ∷ [])
        × (d.0 ≡ finished
            → acks d.1 ≡ (stream_for_priority pc.base_stream t.priority, pc.group, i) ∷ [])
  unfolding payload_of
  delivered env pc t i j law sized good =
      let m : StreamMessage = message_of (record { id = i; values = ("payload", text j) ∷ [] }) in
      let back = unmarshal-marshal t j law sized good in
      (
        priority_runs-due env pc m ∙ rw (back, due_runs) refl,
        λ e. acks-delivery env pc m e ∙ rw (back, presumed_stream) refl,
      )

  -- A task that the priority producer enqueues over the Redis adapter and gets an id for stands, as
  -- one message with this id, at the end of the stream of its priority, which is one of the three
  -- that the priority consumer reads, and no other stream changes; a delivery of this message to a
  -- priority consumer with the same base stream, whatever its services reply, runs exactly this
  -- task, as it is decoded, with no time limit, and if it returns, makes one XACK, of this id on
  -- that very stream and in the consumer's group: if Redis appends as documented and publishing
  -- changes no stream, instants are read back as written and the task's numbers have 64 bits.
  pub priority_produced_is_acked :
      ((e : Event) (w : W) (s : String)
        → redis.entries (publisher.publish e w).1 s ≡ redis.entries w s)
      → IsTimeFormat times
      → (t : Task) (i : String) (w : W) → IsSized t
      → (enqueued t w).0 ≡ ok i
      → (env : Environment) (pc : PriorityConsumer Log) → pc.base_stream ≡ base
      → let w' = (enqueued t w).1 in
        let s = Producer.stream_for_priority base t.priority in
        Memᴰ s (streams base)
        × (m : XMessage) × (m.id ≡ i)
        × (redis.entries w' s ≡ append (redis.entries w s) (m ∷ []))
        × ((other : String) → other ≢ s → redis.entries w' other ≡ redis.entries w other)
        × (let d = delivery env pc (message_of m) in
            (runs d.1 ≡ (none, record t { payload = decoded_payload t.payload }) ∷ [])
            × (d.0 ≡ finished → acks d.1 ≡ (s, pc.group, i) ∷ []))
  priority_produced_is_acked quiet law t i w sized e env pc same =
      let s = Producer.stream_for_priority base t.priority in
      let (added, after) = produced_ok t i w e in
      let (j, good, here, others) = add_entry client redis s t i w added in
      let left : (o : String)
          → redis.entries (enqueued t w).1 o ≡ redis.entries (add client s t w).1 o =
        λ o. ap (λ u. redis.entries u o) after ∙ quiet _ _ o in
      let (ran, acked) = delivered env pc t i j law sized good in
      (
        stream_for_priority-listed base t.priority,
        record { id = i; values = ("payload", text j) ∷ [] },
        refl,
        left s ∙ here,
        (λ o ne. left o ∙ others o ne),
        (
          ran,
          λ f.
              acked f
              ∙ ap (λ b. (stream_for_priority b t.priority, pc.group, i) ∷ []) same
              ∙ ap (λ u. (u, pc.group, i) ∷ []) (stream_for_priority-eq base t.priority),
        ),
      )
