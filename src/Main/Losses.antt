-- ===== src/Main/Losses.antt =====
-- What becomes of the messages of the program that `main` wires.
use Prim.Native.String.{String}
use mathlib.Core.Path.{subst}
use forge_task_queue.Common.{
  ℕ, ◌≡◌, refl, ◌⊎◌, inl, inr, true, List, Option, none, some, All, Bool-cases,
}
use forge_task_queue.Common.Int.{ℤ, pos}
use forge_task_queue.Task.Json.{JsonText}
use forge_task_queue.Task.Codec.{TimeFormat, IsTimeFormat}
use forge_task_queue.Task.Store.{processor_of, IdempotencyChecker}
use forge_task_queue.Task.Codec.RoundTrip.{IsSized}
use forge_task_queue.Metrics.{Metrics}
use forge_task_queue.Config.{Config}
use forge_task_queue.Consumer
use forge_task_queue.Consumer.{Consumer, with_idempotency, worker}
use forge_task_queue.Consumer.Durability.{IsConsiderate}
use forge_task_queue.Consumer.Durability.Fates.{Fates}
use forge_task_queue.Consumer.Durability.Work.{worker_loses_nothing}
use forge_task_queue.RedisAdapter.{
  store, copy_messages, publish, check, new_publisher, event_publisher, new_idempotency_store,
  idempotency_checker,
}
use forge_task_queue.RedisAdapter.Client.{XMessage}
use forge_task_queue.RedisAdapter.Streams.{Streams}
use forge_task_queue.RedisAdapter.Groups.{ids, Distinct}
use forge_task_queue.RedisAdapter.Pending.{Pending, Keeps, Keeps-trans, Leaves}
use forge_task_queue.Main.{Outside, simulated, wire}
use forge_task_queue.Main.Pipeline.{stream_client}

-- Publishing, SET NX, the clock, the draws and the counters, and the other workers that run during
-- these calls, take no message from a stream and acknowledge none of `mine`.
pub record IsApart {W : Type 0} (cfg : Config) (out : Outside W)
    {redis : Streams (stream_client cfg out)} (marks : Pending (stream_client cfg out) redis)
    (metrics : Metrics W) (mine : String → Type 0) : Type 0 where
  pub publishes :
      (channel : String) (j : JsonText)
      → Leaves marks cfg.stream_name cfg.group_name mine (out.client.publish channel j)
  pub sets :
      (key value : String) (ttl : ℤ)
      → Leaves marks cfg.stream_name cfg.group_name mine (out.client.set_nx key value ttl)
  pub sleeps : (d : ℤ) → Leaves marks cfg.stream_name cfg.group_name mine (out.sleep d)
  pub draws : Leaves marks cfg.stream_name cfg.group_name mine out.draw
  pub counts_processed :
      (ty status : String)
      → Leaves marks cfg.stream_name cfg.group_name mine (metrics.tasks_processed ty status)
  pub counts_failed :
      (ty : String) → Leaves marks cfg.stream_name cfg.group_name mine (metrics.tasks_failed ty)
  pub counts_dlq :
      (ty : String) → Leaves marks cfg.stream_name cfg.group_name mine (metrics.tasks_dlq ty)
  pub counts_duration :
      (ty : String) → Leaves marks cfg.stream_name cfg.group_name mine (metrics.task_duration ty)
  pub counts_panic : Leaves marks cfg.stream_name cfg.group_name mine metrics.worker_panics
  pub counts_duplicate : Leaves marks cfg.stream_name cfg.group_name mine metrics.tasks_duplicate

module _ {W : Type 0} ⦃times : TimeFormat⦄ (cfg : Config) (out : Outside W) where
  -- The consumer of `main` in both modes, over the client of the streams.
  abbrev plain : Consumer W
  plain =
      Consumer.new (store (stream_client cfg out))
        (event_publisher (new_publisher out.client "buraq_events")) (processor_of (simulated out))
        cfg.stream_name cfg.group_name cfg.consumer_name cfg.worker_count cfg.fetch_batch_size
        cfg.block_timeout cfg.dlq_stream_name cfg.max_retries

  abbrev checked : Consumer W
  checked =
      with_idempotency plain
        (idempotency_checker (new_idempotency_store out.client (pos 86_400_000_000_000)))

  wired_cases : ((wire cfg out).consumer ≡ plain) ⊎ ((wire cfg out).consumer ≡ checked)
  unfolding wire
  wired_cases = elim (Bool-cases cfg.redis_cluster) [
    | inl cluster ↦ inl (rw cluster refl)
    | inr single ↦ inr (rw single refl)
  ]

  module _ {redis : Streams (stream_client cfg out)} (marks : Pending (stream_client cfg out) redis)
      (metrics : Metrics W) {mine : String → Type 0}
      (apart : IsApart cfg out marks metrics mine) where
    plain-IsConsiderate :
        (o : Option (IdempotencyChecker W))
        → ((checker : IdempotencyChecker W) (key : String)
            → o ≡ some checker
            → Leaves marks cfg.stream_name cfg.group_name mine (checker.check key))
        → IsConsiderate marks metrics (record plain { idempotency = o }) mine
    unfolding Consumer.new publish new_publisher simulated processor_of
    plain-IsConsiderate o checks = record {
      publishes = λ e w. apart.publishes _ _ w;
      processes = λ d t w.
          Keeps-trans marks cfg.stream_name cfg.group_name (apart.sleeps _ w) (apart.draws _);
      checks = λ checker key e w. checks checker key e w;
      counts_processed = λ ty s w. apart.counts_processed ty s w;
      counts_failed = λ ty w. apart.counts_failed ty w;
      counts_dlq = λ ty w. apart.counts_dlq ty w;
      counts_duration = λ ty w. apart.counts_duration ty w;
      counts_panic = λ w. apart.counts_panic w;
      counts_duplicate = λ w. apart.counts_duplicate w;
      sized = λ d t u o w s e. let same : t ≡ u = cc e in subst IsSized same s;
    }

    check_apart :
        (checker : IdempotencyChecker W) (key : String)
        → checked.idempotency ≡ some checker
        → Leaves marks cfg.stream_name cfg.group_name mine (checker.check key)
    unfolding check new_idempotency_store with_idempotency
    check_apart checker key e w =
        let same : idempotency_checker (new_idempotency_store out.client (pos 86_400_000_000_000))
            ≡ checker =
          cc e in
        subst
          (λ (ch : IdempotencyChecker W).
            Keeps marks cfg.stream_name cfg.group_name mine w (ch.check key w).1)
          same (apart.sets _ _ _ w)

    -- A worker of the program that main wires, over one Redis or a cluster, with or without the
    -- idempotency check, and with the simulated code of the tasks, loses no task of the distinct
    -- messages that it receives and that are pending in the group: at its end each message is still
    -- pending, or holds no task, or its task was taken for a duplicate, or was run with success, or
    -- failed and stands as a copy in the stream or the dead-letter stream: whatever Redis replies
    -- and whatever other workers do meanwhile, if Redis does what it documents of XADD and XACK,
    -- instants are read back as written, and its publications, its SET NX, the clock, the draws and
    -- the counters, with all that runs during these calls, take no message from a stream and
    -- acknowledge none of these.
    pub program_loses_nothing :
        IsTimeFormat times
        → (id : ℕ) (ms : List XMessage) (w : W) → Distinct (ids (copy_messages ms))
        → All mine (ids (copy_messages ms))
        → All
            (λ i. marks.pending w cfg.stream_name cfg.group_name i ≡ true)
            (ids (copy_messages ms))
        → Fates marks metrics
            (wire cfg out).consumer
            id
            ms
            w
            (worker metrics (wire cfg out).consumer id (copy_messages ms) w).1
    unfolding Consumer.new with_idempotency
    program_loses_nothing law id ms w once own held = elim wired_cases [
      | inl bare ↦ rw bare (
          worker_loses_nothing marks metrics plain
            (plain-IsConsiderate none (λ checker key e. cc e)) law id ms w once own held)
      | inr guarded ↦ rw guarded (
          worker_loses_nothing marks metrics checked
            (plain-IsConsiderate checked.idempotency check_apart) law id ms w once own held)
    ]
