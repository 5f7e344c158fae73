-- ===== src/Api/Server/Conservation/Requests.antt =====
-- What becomes of dead-lettered tasks in a request for a replay.
use Prim.Native.String.{String}
use mathlib.Core.Path.{subst}
use mathlib.Core.List.{Memᴰ}
use forge_task_queue.Common.{
  ◌≡◌, ◌≢◌, refl, sym, ◌⊎◌, inl, inr, List, [], ◌∷◌, All, All-map, arith, ℕ,
}
use forge_task_queue.Common.Int.{pos}
use forge_task_queue.Task.{ok, err, Result-cases}
use forge_task_queue.Task.Codec.{TimeFormat, IsTimeFormat}
use forge_task_queue.Task.Store.{StreamMessage}
use forge_task_queue.RedisAdapter.{range, copy_messages}
use forge_task_queue.RedisAdapter.Client.{RedisClient, XMessage}
use forge_task_queue.RedisAdapter.Streams.{Streams}
use forge_task_queue.RedisAdapter.Entries.{Entries}
use forge_task_queue.Api.Http.{Request, Response}
use forge_task_queue.Api.Server.{Server, replay_messages, replay_dlq, handle_retry_dlq}
use forge_task_queue.Api.Server.Conservation.{over, IsQuiet, Kept, replay_message_keeps}

module _ {W : Type 0} ⦃times : TimeFormat⦄ (client : RedisClient W) (redis : Streams client)
    (reads : Entries client redis) (s : Server W) (quiet : IsQuiet redis s.publisher)
    (law : IsTimeFormat times) (differ : s.dlq_stream ≢ s.stream) where
  replay_messages_keeps :
      (ns : List XMessage) (m : XMessage) (count : ℕ) (w : W)
      → All (λ n. m.id ≡ n.id → m ≡ n) ns
      → Kept client redis s.stream s.dlq_stream w m
      → Kept client redis s.stream s.dlq_stream
          (replay_messages (over client s) (copy_messages ns) count w).1
          m
  unfolding replay_messages copy_messages
  replay_messages_keeps [] m count w one kept = kept
  replay_messages_keeps (n ∷ rest) m count w one kept =
      replay_messages_keeps rest m _ _ one.1
        (replay_message_keeps client redis reads s quiet law differ n m w one.0 kept)

  range_cases :
      (w : W)
      → ((e : String) × ((range client s.dlq_stream "-" "+" (pos 0) w).0 ≡ err e))
        ⊎ ((ns : List XMessage) × ((client.xrange_n s.dlq_stream "-" "+" (pos 0) w).0 ≡ ok ns)
            × ((range client s.dlq_stream "-" "+" (pos 0) w).0 ≡ ok (copy_messages ns)))
  unfolding range
  range_cases w = elim (Result-cases (client.xrange_n s.dlq_stream "-" "+" (pos 0) w).0) [
    | inl (e, failed) ↦ inl (e, rw (failed, range) refl)
    | inr (ns, listed) ↦ inr (ns, listed, rw (listed, range) refl)
  ]

  replay_dlq_unread :
      (resp : Response) (e : String) (w : W)
      → (range client s.dlq_stream "-" "+" (pos 0) w).0 ≡ err e
      → (replay_dlq (over client s) resp w).1 ≡ (client.xrange_n s.dlq_stream "-" "+" (pos 0) w).1
  unfolding replay_dlq range
  replay_dlq_unread resp e w failed = rw (failed, replay_dlq) refl

  replay_dlq_listed :
      (resp : Response) (ms : List StreamMessage) (w : W)
      → (range client s.dlq_stream "-" "+" (pos 0) w).0 ≡ ok ms
      → (replay_dlq (over client s) resp w).1
        ≡ (replay_messages
            (over client s)
            ms
            0
            (client.xrange_n s.dlq_stream "-" "+" (pos 0) w).1).1
  unfolding replay_dlq range
  replay_dlq_listed resp ms w listed = rw (listed, replay_dlq) refl

  replay_dlq_keeps :
      (resp : Response) (m : XMessage) (w : W)
      → Memᴰ m (redis.entries w s.dlq_stream)
      → Kept client redis s.stream s.dlq_stream (replay_dlq (over client s) resp w).1 m
  replay_dlq_keeps resp m w stands =
      let u = (client.xrange_n s.dlq_stream "-" "+" (pos 0) w).1 in
      let same = reads.xrange_keeps s.dlq_stream "-" "+" (pos 0) w s.dlq_stream in
      let still : Memᴰ m (redis.entries u s.dlq_stream) = subst (Memᴰ m) (sym same) stands in
      elim (range_cases w) [
        | inl (e, failed) ↦ rw (replay_dlq_unread resp e w failed) (inl still)
        | inr (ns, listed, copied) ↦ rw (replay_dlq_listed resp (copy_messages ns) w copied) (
            replay_messages_keeps ns m 0 u
              (All-map _ _ ns (λ n there. reads.one_id w s.dlq_stream m n stands there)
                (reads.xrange_ok s.dlq_stream "-" "+" (pos 0) w ns listed))
              (inl still))
      ]

  -- A request reaches the replay, or changes nothing.
  handle_cases :
      (r : Request) (resp : Response) (w : W)
      → ((handle_retry_dlq (over client s) r resp w).1 ≡ w)
        ⊎ ((handle_retry_dlq (over client s) r resp w).1 ≡ (replay_dlq (over client s) resp w).1)
  unfolding handle_retry_dlq
  handle_cases r resp w = ground arith

  -- After any request to replay the dead-letter stream, over the Redis adapter, each message that
  -- stood in the dead-letter stream still stands there, or the task that it holds stands in the
  -- stream, with no retries counted: whatever XADDs and XDELs fail, if Redis does what it documents
  -- of XADD, XRANGE and XDEL, a publication changes no stream, instants are read back as written
  -- and the two streams differ.
  pub replay_loses_nothing :
      (r : Request) (resp : Response) (w : W) (m : XMessage)
      → Memᴰ m (redis.entries w s.dlq_stream)
      → Kept client redis s.stream s.dlq_stream (handle_retry_dlq (over client s) r resp w).1 m
  replay_loses_nothing r resp w m stands = elim (handle_cases r resp w) [
    | inl idle ↦ rw idle (inl stands)
    | inr replayed ↦ rw replayed (replay_dlq_keeps resp m w stands)
  ]
