-- ===== src/Consumer/Durability.antt =====
-- What becomes of the messages that a worker receives, over the Redis adapter (processMessage and
-- worker of consumer/consumer.go with redisadapter/adapter.go).
pub mod Fates
pub mod Work
use Prim.Native.String.{String}
use mathlib.Core.Path.{subst}
use mathlib.Core.List.{Memᴰ}
use forge_task_queue.Common.{
  ℕ, ◌≡◌, ◌≢◌, refl, sym, ap, ◌∙◌, Bool, true, false, Option, none, some, List, [], ◌∷◌, Action,
  pure, ◌>>=◌, ◌>>◌, if◌then◌else◌, ◌==◌, Bool-cases, Option-cases, inl, inr, All, All-map, arith,
}
use forge_task_queue.Common.Int.{ℤ, ltb_ℤ, inc, inc-lt}
use forge_task_queue.Task.{Task, Event, Result, ok, err, Result-cases}
use forge_task_queue.Task.Codec.{TimeFormat, IsTimeFormat, unmarshal}
use forge_task_queue.Task.Codec.RoundTrip.{decoded_payload, IsSized, unmarshal-IsSized}
use forge_task_queue.Task.Store.{
  IdempotencyChecker, Outcome, returned, panicked, payload_of, TaskProcessor, EventPublisher,
}
use forge_task_queue.Metrics.{Metrics}
use forge_task_queue.RedisAdapter.{store, add, ack, message_of, copy_messages}
use forge_task_queue.RedisAdapter.Client.{RedisClient, XMessage}
use forge_task_queue.RedisAdapter.Streams.{Streams, Stands, add-Stands, task_in}
use forge_task_queue.RedisAdapter.Groups.{ids, Distinct}
use forge_task_queue.RedisAdapter.Pending.{
  Pending, Keeps, Keeps-refl, Keeps-trans, Keeps-fewer, Leaves, add-Leaves, ack-Leaves,
}
use forge_task_queue.Consumer.{
  Consumer, Exit, finished, escaped, event, worker_name, acknowledge, publish_event, settle,
  handle_task_failure, is_duplicate, seen, conclude, run_task, process_message, worker,
}

-- The consumer with its store over a Redis client.
abbrev pub on : {W : Type 0} → ⦃times : TimeFormat⦄ → RedisClient W → Consumer W → Consumer W
on client c = record c { store = store client }

-- What the other services, and the other workers that run during their calls, leave alone: none takes
-- a message from a stream or acknowledges one of `mine`, and the tasks' code leaves the numbers of a
-- task in 64 bits.
pub record IsConsiderate {W : Type 0} {client : RedisClient W} {redis : Streams client}
    (marks : Pending client redis) (metrics : Metrics W) (c : Consumer W) (mine : String → Type 0)
    : Type 0 where
  pub publishes : (e : Event) → Leaves marks c.stream c.group mine (c.publisher.publish e)
  pub processes :
      (d : Option ℤ) (t : Task) → Leaves marks c.stream c.group mine (c.processor.process d t)
  pub checks :
      (checker : IdempotencyChecker W) (key : String)
      → c.idempotency ≡ some checker
      → Leaves marks c.stream c.group mine (checker.check key)
  pub counts_processed :
      (ty status : String) → Leaves marks c.stream c.group mine (metrics.tasks_processed ty status)
  pub counts_failed : (ty : String) → Leaves marks c.stream c.group mine (metrics.tasks_failed ty)
  pub counts_dlq : (ty : String) → Leaves marks c.stream c.group mine (metrics.tasks_dlq ty)
  pub counts_duration :
      (ty : String) → Leaves marks c.stream c.group mine (metrics.task_duration ty)
  pub counts_panic : Leaves marks c.stream c.group mine metrics.worker_panics
  pub counts_duplicate : Leaves marks c.stream c.group mine metrics.tasks_duplicate
  pub sized :
      (d : Option ℤ) (t u : Task) (o : Option String) (w : W)
      → IsSized t
      → (c.processor.process d t w).0 ≡ returned u o
      → IsSized u

module _ {W : Type 0} ⦃times : TimeFormat⦄ {client : RedisClient W} {redis : Streams client}
    (marks : Pending client redis) (metrics : Metrics W) (c : Consumer W) {mine : String → Type 0}
    (calm : IsConsiderate marks metrics c mine) where
  -- What an action on the message with this id leaves: the others of `mine`.
  abbrev Spares : String → {A : Type 0} → Action W A → Type 0
  Spares i a = Leaves marks c.stream c.group (λ j. mine j × (j ≢ i)) a

  -- A call that spares every message of `mine`, and then what spares all but this one.
  step :
      (i : String) {w u v : W}
      → Keeps marks c.stream c.group mine w u
      → Keeps marks c.stream c.group (λ j. mine j × (j ≢ i)) u v
      → Keeps marks c.stream c.group (λ j. mine j × (j ≢ i)) w v
  step i k l =
      Keeps-trans marks c.stream c.group (Keeps-fewer marks c.stream c.group (λ j a. a.0) k) l

  pure-Spares : (i : String) {A : Type 0} (x : A) → Spares i (pure x)
  pure-Spares i x w = Keeps-refl marks c.stream c.group w

  publish_event-Leaves :
      (e : Event) → Leaves marks c.stream c.group mine (publish_event metrics (on client c) e)
  unfolding publish_event
  publish_event-Leaves e w = calm.publishes e w

  acknowledge-Spares : (i : String) → Spares i (acknowledge metrics (on client c) i)
  unfolding acknowledge
  acknowledge-Spares i w =
      Keeps-fewer marks c.stream c.group (λ j a. a.1) (ack-Leaves marks c.stream c.group i w)

  settle-Spares : (i : String) (r : Result String) → Spares i (settle metrics (on client c) i r)
  unfolding settle
  settle-Spares i (ok _) w = acknowledge-Spares i w
  settle-Spares i (err _) w = pure-Spares i tt w

  added :
      (i s : String) (t : Task) (w : W)
      → Keeps marks c.stream c.group
          (λ j. mine j × (j ≢ i))
          w
          (settle metrics (on client c) i (add client s t w).0 (add client s t w).1).1
  added i s t w =
      step i
        (Keeps-fewer marks c.stream c.group (λ j a. tt) (add-Leaves marks c.stream c.group s t w))
        (settle-Spares i (add client s t w).0 _)

  handle_task_failure-Spares :
      (t : Task) (i message name : String)
      → Spares i (handle_task_failure metrics (on client c) t i message name)
  unfolding handle_task_failure
  handle_task_failure-Spares t i message name w =
      elim (Bool-cases (ltb_ℤ t.current_retries t.max_retries)) [
        | inl left ↦ rw left (added i _ _ w)
        | inr used ↦
            rw used (
              step i (calm.counts_dlq t.type w) (step i (publish_event-Leaves _ _) (added i _ _ _)))
      ]

  conclude-Spares :
      (i name : String) (o : Outcome) → Spares i (conclude metrics (on client c) i name o)
  unfolding conclude
  conclude-Spares i name (panicked message) w = pure-Spares i tt w
  conclude-Spares i name (returned t none) w = step i (calm.counts_duration t.type w) (
      step i (calm.counts_processed t.type "success" _)
        (step i (publish_event-Leaves _ _) (acknowledge-Spares i _)))
  conclude-Spares i name (returned t (some message)) w = step i (calm.counts_duration t.type w) (
      step i (calm.counts_processed t.type "error" _) (
        step i (calm.counts_failed t.type _)
          (step i (publish_event-Leaves _ _) (handle_task_failure-Spares t i message name _))))

  is_duplicate-Leaves :
      (t : Task) → Leaves marks c.stream c.group mine (is_duplicate metrics (on client c) t)
  unfolding is_duplicate
  is_duplicate-Leaves t w = elim (Option-cases c.idempotency) [
    | inl off ↦ rw (off, is_duplicate) (Keeps-refl marks c.stream c.group w)
    | inr (checker, set) ↦ elim (Bool-cases (t.idempotency_key == "")) [
      | inl empty ↦ rw (set, empty, is_duplicate) (Keeps-refl marks c.stream c.group w)
      | inr key ↦ rw (set, key, is_duplicate) (calm.checks checker t.idempotency_key set w)
    ]
  ]

  run_task-Spares :
      (id : ℕ) (i : String) (t : Task) → Spares i (run_task metrics (on client c) id i t)
  unfolding run_task
  run_task-Spares id i t w =
      let name = worker_name c.consumer id in
      let e = event "Processing" t name in
      let u = (c.publisher.publish e w).1 in
      step i (publish_event-Leaves e w) (
        step i (calm.processes t.timeout t u)
          (conclude-Spares i name (c.processor.process t.timeout t u).0 _))

  decided :
      (id : ℕ) (i : String) (t : Task) (duplicate : Bool)
      → Spares i (
          if duplicate
          then (do metrics.tasks_duplicate; acknowledge metrics (on client c) i; pure finished)
          else run_task metrics (on client c) id i t)
  decided id i t true w = step i (calm.counts_duplicate w) (acknowledge-Spares i _)
  decided id i t false w = run_task-Spares id i t w

  -- Of `mine` a delivery, with what runs during its calls, acknowledges no message but its own, and it
  -- takes none from a stream.
  pub process_message-Spares :
      (id : ℕ) (m : XMessage)
      → Spares m.id (process_message metrics (on client c) id (message_of m))
  unfolding process_message
  process_message-Spares id m w = elim (Option-cases (payload_of (message_of m))) [
    | inl absent ↦ rw (absent, process_message) (acknowledge-Spares m.id w)
    | inr (p, found) ↦ elim (Option-cases (unmarshal p)) [
      | inl bad ↦ rw (found, bad, process_message) (acknowledge-Spares m.id w)
      | inr (t, good) ↦
          rw (found, good, process_message)
            (step m.id (is_duplicate-Leaves t w) (decided id m.id t _ _))
    ]
  ]
