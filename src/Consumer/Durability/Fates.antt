-- ===== src/Consumer/Durability/Fates.antt =====
-- What becomes of each message that a worker receives, over the Redis adapter.
pub mod Delivery
use Prim.Native.String.{String}
use forge_task_queue.Common.{
  ℕ, ◌≡◌, ◌⊎◌, refl, Bool, true, false, Option, none, some, List, [], ◌∷◌, pure, ◌>>◌,
  if◌then◌else◌, Bool-cases, Option-cases, inl, inr,
}
use forge_task_queue.Common.Int.{ltb_ℤ, inc, inc-lt}
use forge_task_queue.Task.{Task, Result, ok, err}
use forge_task_queue.Task.Json.{JsonText}
use forge_task_queue.Task.Codec.{TimeFormat, IsTimeFormat, unmarshal}
use forge_task_queue.Task.Codec.RoundTrip.{decoded_payload, IsSized, unmarshal-IsSized}
use forge_task_queue.Task.Store.{Outcome, returned, panicked, payload_of}
use forge_task_queue.Metrics.{Metrics}
use forge_task_queue.RedisAdapter.{add, message_of}
use forge_task_queue.RedisAdapter.Client.{RedisClient, XMessage}
use forge_task_queue.RedisAdapter.Streams.{Streams, Stands, add-Stands, task_in}
use forge_task_queue.RedisAdapter.Pending.{Pending, Keeps, add-Leaves}
use forge_task_queue.Consumer.{
  Consumer, finished, event, worker_name, acknowledge, publish_event, settle, handle_task_failure,
  is_duplicate, conclude, run_task, process_message,
}
use forge_task_queue.Consumer.Durability.{
  on, IsConsiderate, acknowledge-Spares, is_duplicate-Leaves,
}

module _ {W : Type 0} ⦃times : TimeFormat⦄ {client : RedisClient W} {redis : Streams client}
    (marks : Pending client redis) (metrics : Metrics W) (c : Consumer W) where
  -- How the run of a task ends, in a delivery that begins in this world.
  abbrev pub outcome : ℕ → Task → W → Outcome
  outcome id t w =
      let u = (is_duplicate metrics (on client c) t w).1 in
      let v = (c.publisher.publish (event "Processing" t (worker_name c.consumer id)) u).1 in
      (c.processor.process t.timeout t v).0

  -- The copy of a failed task, and its stream.
  abbrev pub copy_stream : Task → String
  copy_stream t = if ltb_ℤ t.current_retries t.max_retries then c.stream else c.dlq_stream

  abbrev pub copy : Task → String → Task
  copy t message =
      let failed : Task = record t { error = message; payload = decoded_payload t.payload } in
      if ltb_ℤ t.current_retries t.max_retries
      then record failed { current_retries = inc t.current_retries }
      else failed

  -- What can have become of a message whose delivery began in the world `start`.
  pub data Fate (id : ℕ) (start : W) (m : XMessage) (now : W) : Type 0 where
    waits : marks.pending now c.stream c.group m.id ≡ true → Fate id start m now
    holds_nothing : task_in client redis m ≡ none → Fate id start m now
    seen_before :
        (t : Task)
        → task_in client redis m ≡ some t
        → (is_duplicate metrics (on client c) t start).0 ≡ true
        → Fate id start m now
    succeeded :
        (t u : Task)
        → task_in client redis m ≡ some t
        → outcome id t start ≡ returned u none
        → Fate id start m now
    copied :
        (t u : Task) (message : String)
        → task_in client redis m ≡ some t
        → outcome id t start ≡ returned u (some message)
        → Stands client redis now (copy_stream u) (copy u message)
        → Fate id start m now

  -- The messages that a worker receives, each delivered in the world that those before leave.
  abbrev pub Fates : ℕ → List XMessage → W → W → Type 0
  Fates id [] w now = Unit
  Fates id (m ∷ ms) w now =
      Fate id w m now
      × Fates id ms (process_message metrics (on client c) id (message_of m) w).1 now

  pub Stands-kept :
      {spared : String → Type 0} {w u : W} {s : String} {t : Task}
      → Keeps marks c.stream c.group spared w u
      → Stands client redis w s t
      → Stands client redis u s t
  Stands-kept {s} k (x, m, e) = (x, k.kept s x m, e)

  -- What spares a message does not change its fate.
  pub Fate-kept :
      {spared : String → Type 0} {w u : W} (id : ℕ) (start : W) (m : XMessage)
      → Keeps marks c.stream c.group spared w u
      → spared m.id
      → Fate id start m w
      → Fate id start m u
  Fate-kept id start m k a (waits p) = waits (k.held m.id a p)
  Fate-kept id start m k a (holds_nothing e) = holds_nothing e
  Fate-kept id start m k a (seen_before t e d) = seen_before t e d
  Fate-kept id start m k a (succeeded t u e o) = succeeded t u e o
  Fate-kept id start m k a (copied t u x e o s) = copied t u x e o (Stands-kept k s)
