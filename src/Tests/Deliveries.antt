-- ===== src/Tests/Deliveries.antt =====
-- A worker over a Redis that keeps what is added and what is pending.
use Prim.Native.String.{String}
use forge_task_queue.Common.{
  ◌≡◌, ◌≢◌, refl, sym, ap, Bool, true, false, none, some, List, [], ◌∷◌, length, ◌++◌, arith, ◌==◌,
  eq_iff, Bool-cases, inl, inr, if◌then◌else◌,
}
use forge_task_queue.Common.Int.{pos}
use forge_task_queue.Task.{ok}
use forge_task_queue.Task.Store.{payload_of, text, returned}
use forge_task_queue.Task.Codec.{marshal, unmarshal}
use forge_task_queue.Metrics.{Metrics}
use forge_task_queue.Consumer.{Consumer, worker, process_message}
use forge_task_queue.Consumer.Durability.{on, IsConsiderate}
use forge_task_queue.Consumer.Durability.Fates.{Fates}
use forge_task_queue.Consumer.Durability.Work.{worker-Spares}
use forge_task_queue.RedisAdapter.{add, ack, store, copy_messages}
use forge_task_queue.RedisAdapter.Client.{RedisClient, XMessage}
use forge_task_queue.RedisAdapter.Streams.{Streams}
use forge_task_queue.RedisAdapter.Pending.{Pending, Keeps, Keeps-refl, Keeps-fewer, Everyone}
use forge_task_queue.Main.{Outside, wire}
use forge_task_queue.Main.Losses.{IsApart, program_loses_nothing}
use forge_task_queue.Tests.Values.{settings, unary_times, unary_times-IsTimeFormat, mail, text_of}

-- What was added, with its stream, and which messages are pending.
record World : Type 0 where
  sent : List (String × XMessage)
  waiting : String → Bool

abbrev in_stream : String → List (String × XMessage) → List XMessage
in_stream s [] = []
in_stream s ((t, m) ∷ rest) = if t == s then m ∷ in_stream s rest else in_stream s rest

abbrev redis : RedisClient World
redis = record {
  xadd = λ s f w.
      (ok "5-0", record w { sent = w.sent ++ (s, record { id = "5-0"; values = f }) ∷ [] });
  xread_group = λ g c ss n b w. (ok [], w);
  xack = λ s g i w. (ok tt, record w { waiting = λ j. if j == i then false else w.waiting j });
  xgroup_create_mkstream = λ s g i w. (ok tt, w);
  xrange_n = λ s a b n w. (ok [], w);
  xdel = λ s is w. (ok tt, w);
  set_nx = λ key v ttl w. (ok true, w);
  publish = λ channel j w. (ok tt, w);
}

in_stream-add :
    (s : String) (m : XMessage) (ms : List (String × XMessage))
    → in_stream s (ms ++ (s, m) ∷ []) ≡ in_stream s ms ++ m ∷ []
in_stream-add s m [] = ground (arith, eq_iff s s)
in_stream-add s m ((t, n) ∷ ms) = elim (Bool-cases (t == s)) [
  | inl same ↦ rw same (ap (λ x. n ∷ x) (in_stream-add s m ms))
  | inr other ↦ rw other (in_stream-add s m ms)
]

in_stream-other :
    (o s : String) (m : XMessage) (ms : List (String × XMessage))
    → o ≢ s
    → in_stream o (ms ++ (s, m) ∷ []) ≡ in_stream o ms
in_stream-other o s m [] ne = ground (arith, eq_iff s o)
in_stream-other o s m ((t, n) ∷ ms) ne = elim (Bool-cases (t == o)) [
  | inl same ↦ rw same (ap (λ x. n ∷ x) (in_stream-other o s m ms ne))
  | inr differ ↦ rw differ (in_stream-other o s m ms ne)
]

redis_streams : Streams redis
redis_streams = record {
  entries = λ w s. in_stream s w.sent;
  xadd_ok = λ s f i w e.
      let same : ◌≡◌ {A = String} "5-0" i = ground (arith, e) in
      rw (sym same) (in_stream-add s _ w.sent, λ o ne. in_stream-other o s _ w.sent ne);
  xadd_err = λ s f e w h o m here. absurd (cc h);
}

redis_pending : Pending redis redis_streams
unfolding redis_streams
redis_pending = record {
  pending = λ w s g i. w.waiting i;
  xack_others = λ s g i j w ne p. ground (arith, p, ne, eq_iff j i);
  xack_entries = λ s g i w o. refl;
  xadd_pending = λ t f w s g j p. p;
}

-- A consumer whose runs fail with a timeout.
abbrev consumer : Consumer World
consumer = record {
  store = store redis;
  publisher = record { publish = λ e w. (ok tt, w) };
  processor = record { process = λ d t w. (returned t (some "timeout"), w) };
  idempotency = none;
  stream = "tasks";
  group = "workers";
  consumer = "node";
  worker_count = pos 2;
  fetch_batch_size = pos 10;
  block_timeout = pos 2_000_000_000;
  dlq_stream = "tasks_dlq";
  max_retries = pos 2;
}

abbrev metrics : Metrics World
metrics = record {
  tasks_processed = λ ty s w. (tt, w);
  tasks_failed = λ ty w. (tt, w);
  tasks_dlq = λ ty w. (tt, w);
  task_duration = λ ty w. (tt, w);
  worker_panics = λ w. (tt, w);
  tasks_duplicate = λ w. (tt, w);
}

consumer-IsConsiderate : IsConsiderate redis_pending metrics consumer Everyone
consumer-IsConsiderate = record {
  publishes = λ e w. Keeps-refl redis_pending "tasks" "workers" w;
  processes = λ d t w. Keeps-refl redis_pending "tasks" "workers" w;
  checks = λ checker key e w. cc e;
  counts_processed = λ ty s w. Keeps-refl redis_pending "tasks" "workers" w;
  counts_failed = λ ty w. Keeps-refl redis_pending "tasks" "workers" w;
  counts_dlq = λ ty w. Keeps-refl redis_pending "tasks" "workers" w;
  counts_duration = λ ty w. Keeps-refl redis_pending "tasks" "workers" w;
  counts_panic = λ w. Keeps-refl redis_pending "tasks" "workers" w;
  counts_duplicate = λ w. Keeps-refl redis_pending "tasks" "workers" w;
  sized = λ d t u o w s e. let same : t ≡ u = cc e in rw (sym same) s;
}

-- A task with retries left, and one with none.
abbrev batch : List XMessage
batch =
    record { id = "1-0"; values = ("payload", text (text_of mail)) ∷ [] }
    ∷ record {
      id = "2-0";
      values = ("payload", text (text_of (record mail { max_retries = pos 0 }))) ∷ [];
    }
    ∷ []

abbrev fresh_world : World
fresh_world = record { sent = []; waiting = λ i. true }

ids_differ : ◌≢◌ {A = String} "2-0" "1-0"
ids_differ e = ground (arith, eq_iff "2-0" "1-0")

-- Both messages are acknowledged; the first task is added again, and the second dead-lettered.
batch_handled :
    let w = (worker metrics (on redis consumer) 1 (copy_messages batch) fresh_world).1 in
    (w.waiting "1-0" ≡ false)
    × (w.waiting "2-0" ≡ false)
    × (length (in_stream "tasks" w.sent) ≡ 1)
    × (length (in_stream "tasks_dlq" w.sent) ≡ 1)
unfolding worker copy_messages process_message payload_of unmarshal marshal add ack
batch_handled = (refl, refl, refl, refl)

-- Another worker of the group, which handles a message of its own.
abbrev other_batch : List XMessage
other_batch = record { id = "9-0"; values = [] } ∷ []

abbrev other_worker : World → World
other_worker w = (worker metrics (on redis consumer) 2 (copy_messages other_batch) w).1

abbrev NotOther : String → Type 0
NotOther j = j ≢ "9-0"

other_worker-Keeps : (w : World) → Keeps redis_pending "tasks" "workers" NotOther w (other_worker w)
unfolding copy_messages
other_worker-Keeps w =
    Keeps-fewer redis_pending "tasks" "workers" (λ j ne. (tt, (ne, tt)))
      (worker-Spares redis_pending metrics consumer consumer-IsConsiderate unary_times-IsTimeFormat
        2 other_batch w)

-- The same with the wiring of `main`, where every draw fails the task, and the other worker runs
-- while a task does.
abbrev outside : Outside World
outside = record {
  client = redis;
  cluster_client = redis;
  sleep = λ d w. (tt, other_worker w);
  draw = λ w. (true, w);
  ping = λ w. (ok tt, w);
  cluster_ping = λ w. (ok tt, w);
  uptime = λ w. ("1s", w);
  can_flush = true;
  subscription = λ w. ([], w);
}

outside-IsApart : IsApart settings outside redis_pending metrics NotOther
outside-IsApart = record {
  publishes = λ channel j w. Keeps-refl redis_pending "tasks" "workers" w;
  sets = λ key v ttl w. Keeps-refl redis_pending "tasks" "workers" w;
  sleeps = λ d w. other_worker-Keeps w;
  draws = λ w. Keeps-refl redis_pending "tasks" "workers" w;
  counts_processed = λ ty s w. Keeps-refl redis_pending "tasks" "workers" w;
  counts_failed = λ ty w. Keeps-refl redis_pending "tasks" "workers" w;
  counts_dlq = λ ty w. Keeps-refl redis_pending "tasks" "workers" w;
  counts_duration = λ ty w. Keeps-refl redis_pending "tasks" "workers" w;
  counts_panic = λ w. Keeps-refl redis_pending "tasks" "workers" w;
  counts_duplicate = λ w. Keeps-refl redis_pending "tasks" "workers" w;
}

program_loses_nothing_example :
    Fates redis_pending metrics
      (wire settings outside).consumer
      1
      batch
      fresh_world
      (worker metrics (wire settings outside).consumer 1 (copy_messages batch) fresh_world).1
unfolding copy_messages redis_pending
program_loses_nothing_example =
    program_loses_nothing settings outside redis_pending metrics outside-IsApart
      unary_times-IsTimeFormat 1 batch fresh_world ((ids_differ, tt), (tt, tt))
      ((λ e. ground (arith, eq_iff "1-0" "9-0")), ((λ e. ground (arith, eq_iff "2-0" "9-0")), tt))
      (refl, (refl, tt))
