-- ===== src/Main.antt =====
-- main.go: how the parts are wired together, the simulated code of the tasks, and the producer of
-- mock tasks. `Process` models the goroutines.
pub mod MockTasks
pub mod Pipeline
pub mod Process
pub mod Losses
use Prim.Native.String.{String, ◌++◌}
use forge_task_queue.Common.{
  ℕ, zero, suc, Bool, true, false, Option, none, some, List, [], ◌∷◌, Action, pure, ◌>>=◌, ◌>>◌,
  if◌then◌else◌,
}
use forge_task_queue.Common.Int.{ℤ, pos}
use forge_task_queue.Common.Text.{decimal}
use forge_task_queue.Task.{Task, Result, priority_normal}
use forge_task_queue.Task.Json.{Json, member, end, valid}
use forge_task_queue.Task.Codec.{TimeFormat}
use forge_task_queue.Task.Store.{StreamStore, TaskProcessorFunc, processor_of, returned}
use forge_task_queue.Config.{Config}
use forge_task_queue.Consumer
use forge_task_queue.Consumer.{Consumer, with_idempotency}
use forge_task_queue.Producer
use forge_task_queue.Producer.{Producer, produce}
use forge_task_queue.Api.Server.{Server, new_server}
use forge_task_queue.RedisAdapter.{
  store, cluster_store, new_publisher, event_publisher, new_idempotency_store, idempotency_checker,
}
use forge_task_queue.RedisAdapter.Client.{RedisClient}

-- What `main` gets from outside: the clients of a single Redis and of a cluster with their pings,
-- `time.Sleep`, whether a draw of `rand.Float32` is below 0.05, and what the server's calls of its
-- clock and of the subscription stand for, with whether its response writers can flush.
pub record Outside (W : Type 0) : Type 0 where
  pub client : RedisClient W
  pub cluster_client : RedisClient W
  pub sleep : ℤ → Action W (Unit {0})
  pub draw : Action W Bool
  pub ping : Action W (Result (Unit {0}))
  pub cluster_ping : Action W (Result (Unit {0}))
  pub uptime : Action W String
  pub can_flush : Bool
  pub subscription : Action W (List String)

pub record System (W : Type 0) : Type 0 where
  pub producer : Producer W
  pub server : Server W
  pub consumer : Consumer W

-- The processor of `main`: it simulates work that takes half a second and at times fails.
unfoldable pub simulated : {W : Type 0} → Outside W → TaskProcessorFunc W
simulated out d t = do
  out.sleep (pos 500_000_000)
  fails ← out.draw
  pure (
      returned t
        (if fails then some "simulated network timeout while calling external API" else none))

-- The ping of the chosen client: an error is logged, and the program goes on.
unfoldable pub connect : {W : Type 0} → Config → Outside W → Action W (Unit {0})
connect cfg out = do r ← if cfg.redis_cluster then out.cluster_ping else out.ping; pure tt

-- `main`: the cluster has no idempotency check, and events always go through the single Redis.
unfoldable pub wire : {W : Type 0} → ⦃times : TimeFormat⦄ → Config → Outside W → System W
unfolding simulated
wire cfg out =
    let chosen : StreamStore _ =
      if cfg.redis_cluster then cluster_store out.cluster_client else store out.client in
    let publisher = event_publisher (new_publisher out.client "buraq_events") in
    let plain =
      Consumer.new chosen publisher (processor_of (simulated out)) cfg.stream_name cfg.group_name
        cfg.consumer_name cfg.worker_count cfg.fetch_batch_size cfg.block_timeout
        cfg.dlq_stream_name cfg.max_retries in
    record {
      producer = Producer.new chosen publisher cfg.stream_name;
      server =
          new_server chosen publisher out.ping out.uptime out.can_flush out.subscription
            cfg.stream_name cfg.dlq_stream_name cfg.api_key cfg.cors_origins;
      consumer =
          if cfg.redis_cluster
          then plain
          else with_idempotency plain
              (idempotency_checker (new_idempotency_store out.client (pos 86_400_000_000_000)));
    }

-- The mock task number `n`, created at the instant `now`.
unfoldable pub mock_task : ℕ → ℕ → ℤ → Task
mock_task n now retries = record {
  id = "task-" ++ decimal n;
  type = "email_notification";
  payload = some (
      valid (
        Json.obj
          (member "user_id" (Json.int (pos 123)) (member "template" (Json.str "welcome") end))));
  created_at = now;
  max_retries = retries;
  current_retries = pos 0;
  error = "";
  idempotency_key = "";
  priority = priority_normal;
  timeout = none;
}

module _ {W : Type 0} (p : Producer W) (clock : Action W ℕ) (retries : ℤ) where
  -- The loop of `produceMockTasks` over this many ticks, from the counter `n`: an error of a tick is
  -- logged, and the next tick comes with the next number.
  unfoldable pub produce_mock_tasks : ℕ → ℕ → Action W (Unit {0})
  produce_mock_tasks zero n w = (tt, w)
  produce_mock_tasks (suc ticks) n w =
      let (now, w) = clock w in
      let (r, w) = produce p (mock_task n now retries) w in produce_mock_tasks ticks (suc n) w
