-- ===== src/Main/Pipeline.antt =====
-- From a producer to a worker's run, through the wiring of `main`: Redis adapter, codec and consumer
-- together.
use Prim.Native.String.{String}
use forge_task_queue.Common.{
  ℕ, nat_eq, ◌≡◌, ◌≢◌, refl, sym, ap, ◌∙◌, [], ◌∷◌, ◌++◌, if◌then◌else◌, arith, inl, inr,
  Bool-cases,
}
use forge_task_queue.Task.{Task, Result, ok}
use forge_task_queue.Task.Json.{JsonText}
use forge_task_queue.Task.Codec.{TimeFormat, IsTimeFormat, marshal}
use forge_task_queue.Task.Codec.RoundTrip.{decoded_payload, IsSized, unmarshal-marshal}
use forge_task_queue.Task.Store.{text, payload_of}
use forge_task_queue.Calls.{Log, Environment, count_calls, is_seen}
use forge_task_queue.Config.{Config}
use forge_task_queue.Consumer
use forge_task_queue.Consumer.{Consumer, with_idempotency}
use forge_task_queue.Consumer.Delivery.{delivery, runs, due_runs, runs-due}
use forge_task_queue.Producer.{Producer, produce, new, pending}
use forge_task_queue.RedisAdapter.{add, message_of, publish, new_publisher}
use forge_task_queue.RedisAdapter.Client.{RedisClient, XMessage}
use forge_task_queue.RedisAdapter.Streams.{Streams, add_entry}
use forge_task_queue.Main.{Outside, wire}

-- The client of the streams.
abbrev pub stream_client : {W : Type 0} → Config → Outside W → RedisClient W
stream_client cfg out = if cfg.redis_cluster then out.cluster_client else out.client

-- What a delivery of this message runs: the task, with its own time limit, unless it was seen.
message_runs :
    ⦃times : TimeFormat⦄ (env : Environment) (c : Consumer Log) (worker : ℕ) (t : Task) (i : String)
    (j : JsonText)
    → IsTimeFormat times
    → IsSized t
    → marshal t ≡ ok j
    → let d =
        delivery env c worker (message_of (record { id = i; values = ("payload", text j) ∷ [] })) in
      runs d.1 ≡ (
        if nat_eq (count_calls is_seen d.1) 0
        then (t.timeout, record t { payload = decoded_payload t.payload }) ∷ []
        else [])
unfolding payload_of
message_runs env c worker t i j law sized good =
    runs-due env c worker (message_of (record { id = i; values = ("payload", text j) ∷ [] }))
    ∙ rw (unmarshal-marshal t j law sized good, due_runs) refl

module _ {W : Type 0} ⦃times : TimeFormat⦄ where
  -- Producing a task that gets an id is an XADD that gets this id, and an event.
  produce_ok :
      (p : Producer W) (t : Task) (i : String) (w : W)
      → (produce p t w).0 ≡ ok i
      → ((p.store.add p.stream t w).0 ≡ ok i)
        × ((produce p t w).1 ≡ (p.publisher.publish (pending t) (p.store.add p.stream t w).1).1)
  unfolding produce
  produce_ok p t i w e = ground arith

  -- The producer of `main` adds through the client of the streams, in both modes.
  wired_add :
      (cfg : Config) (out : Outside W) (s : String) (t : Task) (w : W)
      → (wire cfg out).producer.store.add s t w ≡ add (stream_client cfg out) s t w
  unfolding wire new
  wired_add cfg out s t w = elim (Bool-cases cfg.redis_cluster) [
    | inl cluster ↦ rw cluster refl
    | inr single ↦ rw single refl
  ]

  -- What is published goes to no stream.
  abbrev pub PublishesOnly :
      (cfg : Config) (out : Outside W) → Streams (stream_client cfg out) → Type 0
  PublishesOnly cfg out redis =
      (channel : String) (j : JsonText) (w : W) (s : String)
      → redis.entries (out.client.publish channel j w).1 s ≡ redis.entries w s

  same_stream : (cfg : Config) (out : Outside W) → (wire cfg out).consumer.stream ≡ cfg.stream_name
  unfolding wire Consumer.new with_idempotency
  same_stream cfg out = ground arith

  -- What the producer of `main` leaves on the streams.
  wired_produce :
      (cfg : Config) (out : Outside W) (redis : Streams (stream_client cfg out))
      → PublishesOnly cfg out redis
      → (t : Task) (i : String) (w : W) → (produce (wire cfg out).producer t w).0 ≡ ok i
      → ((add (stream_client cfg out) cfg.stream_name t w).0 ≡ ok i)
        × ((s : String)
            → redis.entries (produce (wire cfg out).producer t w).1 s
              ≡ redis.entries (add (stream_client cfg out) cfg.stream_name t w).1 s)
  unfolding wire new publish new_publisher
  wired_produce cfg out redis quiet t i w e =
      let (added, after) = produce_ok (wire cfg out).producer t i w e in
      let same = wired_add cfg out cfg.stream_name t w in
      (
        ap (λ a. a.0) (sym same) ∙ added,
        λ s.
            ap (λ w. redis.entries w s) after
            ∙ ap
                (λ (a : Result String × W).
                  redis.entries
                    (publish (new_publisher out.client "buraq_events") (pending t) a.1).1 s)
                same
            ∙ quiet _ _ _ s,
      )

  -- A task that the wired producer enqueues and gets an id for stands, as one message with this id,
  -- at the end of the stream that the wired consumer reads, and no other stream changes; a delivery
  -- of this message to any consumer, whatever its services reply, runs exactly this task, as it is
  -- decoded, with its own time limit, unless the idempotency check said that it was seen: if Redis
  -- appends as documented and publishing changes no stream, instants are read back as written and
  -- the task's numbers have 64 bits.
  pub produced_is_run :
      (cfg : Config) (out : Outside W) (redis : Streams (stream_client cfg out))
      → PublishesOnly cfg out redis
      → IsTimeFormat times
      → (t : Task) (i : String) (w : W) → IsSized t
      → (produce (wire cfg out).producer t w).0 ≡ ok i
      → (env : Environment) (c : Consumer Log) (worker : ℕ)
      → let stream = (wire cfg out).consumer.stream in
        let w' = (produce (wire cfg out).producer t w).1 in
        (m : XMessage) × (m.id ≡ i)
        × (redis.entries w' stream ≡ redis.entries w stream ++ m ∷ [])
        × ((other : String) → other ≢ stream → redis.entries w' other ≡ redis.entries w other)
        × (let d = delivery env c worker (message_of m) in
            runs d.1 ≡ (
              if nat_eq (count_calls is_seen d.1) 0
              then (t.timeout, record t { payload = decoded_payload t.payload }) ∷ []
              else []))
  produced_is_run cfg out redis quiet law t i w sized e env c worker =
      let (added, left) = wired_produce cfg out redis quiet t i w e in
      let (j, good, here, others) =
        add_entry (stream_client cfg out) redis cfg.stream_name t i w added in
      rw same_stream (
        record { id = i; values = ("payload", text j) ∷ [] },
        refl,
        left cfg.stream_name ∙ here,
        (λ other ne. left other ∙ others other ne),
        message_runs env c worker t i j law sized good,
      )
