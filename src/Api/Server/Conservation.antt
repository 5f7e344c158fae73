-- ===== src/Api/Server/Conservation.antt =====
-- What becomes of dead-lettered tasks in a replay: the server over the Redis adapter.
pub mod Requests
use Prim.Native.String.{String}
use mathlib.Core.Path.{subst}
use mathlib.Core.List.Memᴰ
use mathlib.Core.List.{Memᴰ}
use forge_task_queue.Common.{
  ◌≡◌, ◌≢◌, refl, sym, ap, ◌∙◌, ◌⊎◌, inl, inr, Bool, true, false, Option, none, some, List, [], ◌∷◌,
  ◌++◌, map, All, All-map, arith, ◌==◌, eq_iff, Bool-cases, Option-cases, if◌then◌else◌, ℕ, suc,
}
use forge_task_queue.Common.Int.{pos}
use forge_task_queue.Task.{Task, Event, Result, ok, err, Result-cases}
use forge_task_queue.Task.Codec.{TimeFormat, IsTimeFormat, unmarshal}
use forge_task_queue.Task.Codec.RoundTrip.{decoded_payload, IsSized, unmarshal-IsSized}
use forge_task_queue.Task.Store.{StreamMessage, EventPublisher, payload_of}
use forge_task_queue.RedisAdapter.{add, range, delete, store, message_of, copy_messages}
use forge_task_queue.RedisAdapter.Client.{RedisClient, XMessage}
use forge_task_queue.RedisAdapter.Streams.{
  Streams, tasks, tasks-eq, add_ok, add_entry, add_err, tasks_kept,
}
use forge_task_queue.RedisAdapter.Entries.{Entries}
use forge_task_queue.Api.Http.{Request, Response}
use forge_task_queue.Api.Server.{
  Server, pending_event, replay_task, replay_message, replay_messages, replay_dlq, handle_retry_dlq,
}
use forge_task_queue.Api.Server.Replay.{fresh_task}

-- The server with its store over a Redis client.
abbrev pub over : {W : Type 0} → ⦃times : TimeFormat⦄ → RedisClient W → Server W → Server W
over client s = record s { store = store client }

-- A publication changes no stream.
abbrev pub IsQuiet :
    {W : Type 0} {client : RedisClient W} → Streams client → EventPublisher W → Type 0
IsQuiet {W} redis publisher =
    (e : Event) (w : W) (o : String) → redis.entries (publisher.publish e w).1 o ≡ redis.entries w o

module _ {W : Type 0} ⦃times : TimeFormat⦄ (client : RedisClient W) (redis : Streams client)
    (stream dlq : String) where
  -- A message still stands in the dead-letter stream, or the task that it holds stands in the
  -- stream, with no retries counted.
  abbrev pub Kept : W → XMessage → Type 0
  Kept w m =
      Memᴰ m (redis.entries w dlq)
      ⊎ ((t : Task) × (fresh_task times (message_of m) ≡ some t)
          × Memᴰ (some (record t { payload = decoded_payload t.payload }))
              (tasks client redis w stream))

  -- What takes no message from a stream keeps what is kept.
  Kept-more :
      (w u : W) (m : XMessage)
      → ((o : String) (x : XMessage) → Memᴰ x (redis.entries w o) → Memᴰ x (redis.entries u o))
      → Kept w m
      → Kept u m
  Kept-more w u m more (inl here) = inl (more dlq m here)
  Kept-more w u m more (inr (t, fresh, moved)) =
      inr (t, fresh, tasks_kept client redis u w stream (more stream) moved)

  -- What changes neither stream keeps what is kept.
  Kept-same :
      (w u : W) (m : XMessage)
      → redis.entries u dlq ≡ redis.entries w dlq
      → tasks client redis u stream ≡ tasks client redis w stream
      → Kept w m
      → Kept u m
  Kept-same w u m d e (inl here) = inl (rw d here)
  Kept-same w u m d e (inr (t, fresh, moved)) = inr (t, fresh, rw e moved)

fresh_task-IsSized :
    ⦃times : TimeFormat⦄ (msg : StreamMessage) (t : Task)
    → fresh_task times msg ≡ some t
    → IsSized t
fresh_task-IsSized msg t e = elim (Option-cases (payload_of msg)) [
  | inl absent ↦ cc (rw (absent, fresh_task) at e)
  | inr (p, found) ↦ elim (Option-cases (unmarshal p)) [
    | inl bad ↦ cc (rw (found, bad, fresh_task) at e)
    | inr (u, good) ↦
        let sized = unmarshal-IsSized p u good in
        let same : record u { current_retries = pos 0 } ≡ t =
          cc (rw (found, good, fresh_task) at e) in
        rw (sym same) (record {
          max_retries = sized.max_retries;
          current_retries = omega arith;
          timeout = sized.timeout;
        })
  ]
]

module _ {W : Type 0} ⦃times : TimeFormat⦄ (client : RedisClient W) (redis : Streams client)
    (reads : Entries client redis) (s : Server W) (quiet : IsQuiet redis s.publisher)
    (law : IsTimeFormat times) (differ : s.dlq_stream ≢ s.stream) where
  -- A task that is put back, and its message deleted.
  moved :
      (n m : XMessage) (t : Task) (i : String) (w : W)
      → fresh_task times (message_of n) ≡ some t
      → (m.id ≡ n.id → m ≡ n)
      → (add client s.stream t w).0 ≡ ok i
      → Kept client redis s.stream s.dlq_stream w m
      → Kept client redis s.stream s.dlq_stream
          (client.xdel s.dlq_stream (n.id ∷ []) (add client s.stream t w).1).1
          m
  moved n m t i w fresh one added kept =
      let (here, _) =
        add_ok client redis s.stream t i w law (fresh_task-IsSized (message_of n) t fresh) added in
      let (j, good, _, others) = add_entry client redis s.stream t i w added in
      let after = (client.xdel s.dlq_stream (n.id ∷ []) (add client s.stream t w).1).1 in
      let now =
        tasks-eq client redis after (add client s.stream t w).1 s.stream
          (reads.xdel_others s.dlq_stream n.id _ s.stream (λ e. differ (sym e)))
        ∙ here in
      elim (Bool-cases (m.id == n.id)) [
        | inl same ↦
            let e : m ≡ n = one ((eq_iff m.id n.id).0 same) in
            inr (
              t,
              ap (λ x. fresh_task times (message_of x)) e ∙ fresh,
              subst (Memᴰ _) (sym now) (Memᴰ.append_right _ (Memᴰ.head refl)),
            )
        | inr other ↦ elim kept [
          | inl stands ↦ inl (
              reads.xdel_keeps s.dlq_stream n.id _ m (λ e. ground (arith, other, eq_iff m.id n.id))
                (subst (Memᴰ m) (sym (others s.dlq_stream differ)) stands))
          | inr (u, f, there) ↦ inr (u, f, subst (Memᴰ _) (sym now) (Memᴰ.append_left _ there))
        ]
      ]

  replay_task_failed :
      (msg : StreamMessage) (t : Task) (e : String) (w : W)
      → (add client s.stream t w).0 ≡ err e
      → (replay_task (over client s) msg t w).1 ≡ (add client s.stream t w).1
  unfolding replay_task
  replay_task_failed msg t e w failed = ground (arith, failed)

  replay_task_added :
      (msg : StreamMessage) (t : Task) (i : String) (w : W)
      → (add client s.stream t w).0 ≡ ok i
      → (replay_task (over client s) msg t w).1
        ≡ (s.publisher.publish
            (pending_event (over client s) t)
            (client.xdel s.dlq_stream (msg.id ∷ []) (add client s.stream t w).1).1).1
  unfolding replay_task delete
  replay_task_added msg t i w added = ground (arith, added)

  replay_task_keeps :
      (n m : XMessage) (t : Task) (w : W)
      → fresh_task times (message_of n) ≡ some t
      → (m.id ≡ n.id → m ≡ n)
      → Kept client redis s.stream s.dlq_stream w m
      → Kept client redis s.stream s.dlq_stream (replay_task (over client s) (message_of n) t w).1 m
  replay_task_keeps n m t w fresh one kept = elim (Result-cases (add client s.stream t w).0) [
    | inl (e, failed) ↦ rw (replay_task_failed (message_of n) t e w failed) (
        Kept-more client redis s.stream s.dlq_stream w _ m
          (add_err client redis s.stream t e w failed) kept)
    | inr (i, added) ↦
        let after = (client.xdel s.dlq_stream (n.id ∷ []) (add client s.stream t w).1).1 in
        rw (replay_task_added (message_of n) t i w added) (
          Kept-same client redis s.stream s.dlq_stream after _ m (quiet _ _ s.dlq_stream)
            (tasks-eq client redis _ after s.stream (quiet _ _ s.stream))
            (moved n m t i w fresh one added kept))
  ]

  pub replay_message_keeps :
      (n m : XMessage) (w : W)
      → (m.id ≡ n.id → m ≡ n)
      → Kept client redis s.stream s.dlq_stream w m
      → Kept client redis s.stream s.dlq_stream
          (replay_message (over client s) (message_of n) w).1
          m
  unfolding replay_message
  replay_message_keeps n m w one kept = elim (Option-cases (payload_of (message_of n))) [
    | inl absent ↦ rw (absent, replay_message) kept
    | inr (p, found) ↦ elim (Option-cases (unmarshal p)) [
      | inl bad ↦ rw (found, bad, replay_message) kept
      | inr (t, good) ↦
          rw (found, good, replay_message)
            (replay_task_keeps n m (record t { current_retries = pos 0 }) w
              (rw (found, good, fresh_task) refl) one kept)
    ]
  ]
