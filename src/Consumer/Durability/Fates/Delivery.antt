-- ===== src/Consumer/Durability/Fates/Delivery.antt =====
-- A delivery over the Redis adapter gives its message one of the fates.
use Prim.Native.String.{String}
use forge_task_queue.Common.{
  ℕ, ◌≡◌, ◌⊎◌, refl, Bool, true, false, Option, none, some, pure, ◌>>◌, if◌then◌else◌, Bool-cases,
  Option-cases, inl, inr,
}
use forge_task_queue.Common.Int.{ltb_ℤ, inc, inc-lt}
use forge_task_queue.Task.{Task, Result, ok, err}
use forge_task_queue.Task.Json.{JsonText}
use forge_task_queue.Task.Codec.{TimeFormat, IsTimeFormat, unmarshal}
use forge_task_queue.Task.Codec.RoundTrip.{decoded_payload, IsSized, unmarshal-IsSized}
use forge_task_queue.Task.Store.{Outcome, returned, panicked, payload_of}
use forge_task_queue.Metrics.{Metrics}
use forge_task_queue.RedisAdapter.{add, message_of}
use forge_task_queue.RedisAdapter.Client.{RedisClient, XMessage}
use forge_task_queue.RedisAdapter.Streams.{Streams, Stands, add-Stands, task_in}
use forge_task_queue.RedisAdapter.Pending.{Pending, add-Leaves}
use forge_task_queue.Consumer.{
  Consumer, finished, event, worker_name, acknowledge, publish_event, settle, handle_task_failure,
  is_duplicate, conclude, run_task, process_message,
}
use forge_task_queue.Consumer.Durability.{
  on, IsConsiderate, acknowledge-Spares, is_duplicate-Leaves,
}
use forge_task_queue.Consumer.Durability.Fates.{
  outcome, copy_stream, copy, Fate, waits, holds_nothing, seen_before, succeeded, copied,
  Stands-kept,
}

module _ {W : Type 0} ⦃times : TimeFormat⦄ {client : RedisClient W} {redis : Streams client}
    (marks : Pending client redis) (metrics : Metrics W) (c : Consumer W) {mine : String → Type 0}
    (calm : IsConsiderate marks metrics c mine) (law : IsTimeFormat times) where
  abbrev IsHeld : String → W → Type 0
  IsHeld i w = marks.pending w c.stream c.group i ≡ true

  failed-IsSized :
      (u : Task) (message : String) → IsSized u → IsSized (record u { error = message })
  failed-IsSized u message sized = record {
    max_retries = sized.max_retries;
    current_retries = sized.current_retries;
    timeout = sized.timeout;
  }

  retried-IsSized :
      (u : Task) (message : String)
      → ltb_ℤ u.current_retries u.max_retries ≡ true
      → IsSized u
      → IsSized (record u { error = message; current_retries = inc u.current_retries })
  retried-IsSized u message left sized = record {
    max_retries = sized.max_retries;
    current_retries =
        (inc-lt u.current_retries u.max_retries left sized.current_retries sized.max_retries).2;
    timeout = sized.timeout;
  }

  settle_fate :
      (i s : String) (t : Task) (w : W) (r : Result String)
      → IsSized t
      → IsHeld i w
      → (add client s t w).0 ≡ r
      → let u = (settle metrics (on client c) i r (add client s t w).1).1 in
        IsHeld i u ⊎ Stands client redis u s (record t { payload = decoded_payload t.payload })
  unfolding settle
  settle_fate i s t w (err e) sized p h =
      inl ((add-Leaves marks c.stream c.group s t w).held i tt p)
  settle_fate i s t w (ok j) sized p h = inr (
      Stands-kept marks metrics c (acknowledge-Spares marks metrics c calm i _)
        (add-Stands client redis s t j w law sized h))

  -- After a failed run the message waits, or its copy stands.
  failure_fate :
      (u : Task) (i message name : String) (w : W)
      → IsSized u
      → mine i
      → IsHeld i w
      → let v = (handle_task_failure metrics (on client c) u i message name w).1 in
        IsHeld i v
        ⊎ Stands client redis v (copy_stream marks metrics c u) (copy marks metrics c u message)
  unfolding handle_task_failure publish_event
  failure_fate u i message name w sized own p =
      elim (Bool-cases (ltb_ℤ u.current_retries u.max_retries)) [
        | inl left ↦
            let t = record u { error = message; current_retries = inc u.current_retries } in
            rw left (
              settle_fate i c.stream t w (add client c.stream t w).0
                (retried-IsSized u message left sized) p refl)
        | inr used ↦
            let t = record u { error = message } in
            let v = (c.publisher.publish (event "DLQ" t name) (metrics.tasks_dlq u.type w).1).1 in
            rw used (
              settle_fate i c.dlq_stream t v (add client c.dlq_stream t v).0
                (failed-IsSized u message sized)
                ((calm.publishes _ _).held i own ((calm.counts_dlq u.type w).held i own p)) refl)
      ]

  failed_fate :
      (id : ℕ) (m : XMessage) (start : W) (t u : Task) (message : String) (w : W)
      → task_in client redis m ≡ some t
      → outcome marks metrics c id t start ≡ returned u (some message)
      → IsHeld m.id w
        ⊎ Stands client redis w (copy_stream marks metrics c u) (copy marks metrics c u message)
      → Fate marks metrics c id start m w
  failed_fate id m start t u message w e o (inl p) = waits p
  failed_fate id m start t u message w e o (inr s) = copied t u message e o s

  conclude_fate :
      (id : ℕ) (m : XMessage) (start : W) (t : Task) (name : String) (o : Outcome) (w : W)
      → task_in client redis m ≡ some t
      → IsSized t
      → outcome marks metrics c id t start ≡ o
      → mine m.id
      → IsHeld m.id w
      → Fate marks metrics c id start m (conclude metrics (on client c) m.id name o w).1
  unfolding conclude publish_event
  conclude_fate id m start t name (panicked message) w e sized o own p = waits p
  conclude_fate id m start t name (returned u none) w e sized o own p = succeeded t u e o
  conclude_fate id m start t name (returned u (some message)) w e sized o own p =
      failed_fate id m start t u message _ e o (
        failure_fate u m.id message name _ (calm.sized _ t u _ _ sized o) own (
          (calm.publishes _ _).held m.id own (
            (calm.counts_failed u.type _).held m.id own (
              (calm.counts_processed u.type "error" _).held m.id own
                ((calm.counts_duration u.type w).held m.id own p)))))

  run_fate :
      (id : ℕ) (m : XMessage) (start : W) (t : Task) (duplicate : Bool)
      → (is_duplicate metrics (on client c) t start).0 ≡ duplicate
      → task_in client redis m ≡ some t
      → IsSized t
      → mine m.id
      → IsHeld m.id (is_duplicate metrics (on client c) t start).1
      → Fate marks metrics c id start m
          ((if duplicate
              then (do
                metrics.tasks_duplicate
                acknowledge metrics (on client c) m.id
                pure finished)
              else run_task metrics (on client c) id m.id t)
            (is_duplicate metrics (on client c) t start).1).1
  unfolding run_task publish_event
  run_fate id m start t true d e sized own p = seen_before t e d
  run_fate id m start t false d e sized own p =
      let v = (is_duplicate metrics (on client c) t start).1 in
      let name = worker_name c.consumer id in
      let x = (c.publisher.publish (event "Processing" t name) v).1 in
      conclude_fate id m start t name (c.processor.process t.timeout t x).0 _ e sized refl own
        ((calm.processes t.timeout t x).held m.id own ((calm.publishes _ v).held m.id own p))

  task_found :
      (m : XMessage) (p : JsonText) (o : Option Task)
      → payload_of (message_of m) ≡ some p
      → unmarshal p ≡ o
      → task_in client redis m ≡ o
  task_found m p o found e = rw (found, e, task_in) refl

  -- One delivery.
  pub delivery_fate :
      (id : ℕ) (m : XMessage) (w : W)
      → mine m.id
      → IsHeld m.id w
      → Fate marks metrics c id w m (process_message metrics (on client c) id (message_of m) w).1
  unfolding process_message
  delivery_fate id m w own p = elim (Option-cases (payload_of (message_of m))) [
    | inl absent ↦ holds_nothing (rw (absent, task_in) refl)
    | inr (j, found) ↦ elim (Option-cases (unmarshal j)) [
      | inl bad ↦ holds_nothing (task_found m j none found bad)
      | inr (t, good) ↦
          rw (found, good, process_message)
            (run_fate id m w t _ refl (task_found m j (some t) found good)
              (unmarshal-IsSized j t good) own
              ((is_duplicate-Leaves marks metrics c calm t w).held m.id own p))
    ]
  ]
