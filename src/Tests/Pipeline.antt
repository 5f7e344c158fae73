-- ===== src/Tests/Pipeline.antt =====
-- A task's way through the wired program, over the small Redis of `Adapters`.
use Prim.Native.String.{String}
use forge_task_queue.Common.{
  none, nat_eq, ◌≡◌, ◌≢◌, refl, true, false, some, [], ◌∷◌, ◌++◌, if◌then◌else◌,
}
use forge_task_queue.Common.Int.{pos}
use forge_task_queue.Task.{ok}
use forge_task_queue.Task.Codec.{marshal}
use forge_task_queue.Calls.{count_calls, is_seen}
use forge_task_queue.Consumer.Delivery.{delivery, runs}
use forge_task_queue.Producer
use forge_task_queue.Producer.{produce, new, produce_by_priority, new_priority_producer, streams}
use forge_task_queue.PriorityConsumer
use forge_task_queue.Calls.{acks}
use forge_task_queue.PriorityConsumer.Pipeline.{enqueued, priority_produced_is_acked}
use forge_task_queue.Consumer.{finished}
use forge_task_queue.Task.Store.{EventPublisher}
use mathlib.Core.List.{Memᴰ}
use forge_task_queue.RedisAdapter.{message_of, add, publish}
use forge_task_queue.RedisAdapter.Client.{XMessage}
use forge_task_queue.Main.{Outside, wire}
use forge_task_queue.Main.Pipeline.{PublishesOnly, produced_is_run}
use forge_task_queue.Tests.Adapters.{World, redis, redis_streams, empty_world}
use forge_task_queue.Tests.Values.{
  settings, unary_times, unary_times-IsTimeFormat, mail, mail-IsSized, weak_run, shop, fast_shop,
}

abbrev outside : Outside World
outside = record {
  client = redis;
  cluster_client = redis;
  sleep = λ d w. (tt, w);
  draw = λ w. (false, w);
  ping = λ w. (ok tt, w);
  cluster_ping = λ w. (ok tt, w);
  uptime = λ w. ("1s", w);
  can_flush = true;
  subscription = λ w. ([], w);
}

mail_produced : (produce (wire settings outside).producer mail empty_world).0 ≡ ok "5-0"
unfolding produce wire add marshal publish new
mail_produced = refl

quiet : PublishesOnly settings outside redis_streams
unfolding redis_streams
quiet channel j w s = refl

produced_is_run_example :
    let stream = (wire settings outside).consumer.stream in
    let w = (produce (wire settings outside).producer mail empty_world).1 in
    (m : XMessage) × (m.id ≡ "5-0")
    × (redis_streams.entries w stream ≡ redis_streams.entries empty_world stream ++ m ∷ [])
    × ((other : String)
        → other ≢ stream
        → redis_streams.entries w other ≡ redis_streams.entries empty_world other)
    × (let d = delivery weak_run shop 1 (message_of m) in
        runs d.1 ≡ (if nat_eq (count_calls is_seen d.1) 0 then (some (pos 5), mail) ∷ [] else []))
produced_is_run_example =
    produced_is_run settings outside redis_streams quiet unary_times-IsTimeFormat mail "5-0"
      empty_world mail-IsSized mail_produced weak_run shop 1

-- The same of a task of high priority, through the priority producer.
abbrev silent : EventPublisher World
silent = record { publish = λ e w. (ok tt, w) }

high_mail_produced : (enqueued redis redis_streams silent "tasks" mail empty_world).0 ≡ ok "5-0"
unfolding produce_by_priority new_priority_producer add marshal
high_mail_produced = refl

priority_produced_is_acked_example :
    let s = Producer.stream_for_priority "tasks" mail.priority in
    let w = (enqueued redis redis_streams silent "tasks" mail empty_world).1 in
    Memᴰ s (streams "tasks")
    × (m : XMessage) × (m.id ≡ "5-0")
    × (redis_streams.entries w s ≡ redis_streams.entries empty_world s ++ m ∷ [])
    × ((other : String)
        → other ≢ s
        → redis_streams.entries w other ≡ redis_streams.entries empty_world other)
    × (let d = PriorityConsumer.Delivery.delivery weak_run fast_shop (message_of m) in
        (runs d.1 ≡ (none, mail) ∷ [])
        × (d.0 ≡ finished → acks d.1 ≡ (s, fast_shop.group, "5-0") ∷ []))
unfolding redis_streams
priority_produced_is_acked_example =
    priority_produced_is_acked redis redis_streams silent "tasks" (λ e w s. refl)
      unary_times-IsTimeFormat mail "5-0" empty_world mail-IsSized high_mail_produced weak_run
      fast_shop refl
