-- ===== src/Tests/Values.antt =====
-- Concrete tasks, messages and services.
use Prim.Native.String.{String, ◌++◌, count}
use package.text.Mathlib.TextLemmas.{length-append}
use forge_task_queue.Common.{
  true, false, ℕ, zero, suc, ◌≡◌, refl, ap, ◌∙◌, sym, none, some, [], ◌∷◌, arith, not,
}
use forge_task_queue.Common.Int.{pos}
use forge_task_queue.Task.{Task, ok, err}
use forge_task_queue.Task.Json.{Json, JsonText, valid, invalid}
use forge_task_queue.Task.Codec.{TimeFormat, IsTimeFormat, marshal}
use forge_task_queue.Task.Codec.RoundTrip.{IsSized}
use forge_task_queue.Task.Store.{StreamMessage, text, returned, panicked}
use forge_task_queue.Calls.{
  Environment, Log, recorded_store, recorded_publisher, recorded_processor, recorded_checker,
}
use forge_task_queue.Config.{Config}
use forge_task_queue.Consumer.{Consumer}
use forge_task_queue.PriorityConsumer.{PriorityConsumer}
use forge_task_queue.Consumer.Keys.{was_checked}

-- Instants in unary.
abbrev pub unary : ℕ → String
unary zero = ""
unary (suc n) = "1" ++ unary n

instance abbrev pub unary_times : TimeFormat
unary_times = record { zero_time = 0; write = λ i. some (unary i); read = λ s. some (count s) }

count-unary : (i : ℕ) → count (unary i) ≡ i
count-unary zero = refl
count-unary (suc i) = omega (arith, length-append "1" (unary i), count-unary i)

pub unary_times-IsTimeFormat : IsTimeFormat unary_times
unary_times-IsTimeFormat i s e =
    let same : unary i ≡ s = ground arith in ap some (ap count (sym same) ∙ count-unary i)

-- A task with a payload, two retries, and no idempotency key.
abbrev pub mail : Task
mail = record {
  id = "task-1";
  type = "email";
  payload = some (valid (Json.int (pos 123)));
  created_at = 3;
  max_retries = pos 2;
  current_retries = pos 0;
  error = "";
  idempotency_key = "";
  priority = "high";
  timeout = some (pos 5);
}

abbrev pub keyed_mail : Task
keyed_mail = record mail { idempotency_key = "k" }

-- The text of a task.
abbrev pub text_of : Task → JsonText
text_of t = elim (marshal t) [ ok j ↦ j | err e ↦ invalid e ]

pub mail-IsSized : IsSized mail
mail-IsSized = record {
  max_retries = omega arith;
  current_retries = omega arith;
  timeout = omega arith;
}

pub mail-marshal : marshal mail ≡ ok (text_of mail)
unfolding marshal
mail-marshal = refl

abbrev pub mail_message : StreamMessage
mail_message = record { id = "1-0"; values = ("payload", text (text_of mail)) ∷ [] }

abbrev pub keyed_message : StreamMessage
keyed_message = record { id = "2-0"; values = ("payload", text (text_of keyed_mail)) ∷ [] }

abbrev pub empty_message : StreamMessage
empty_message = record { id = "9-0"; values = [] }

-- Services that reply as they should, while every run of a task fails.
abbrev pub weak_run : Environment
weak_run = record {
  add = λ w s t. ok "5-0";
  read_group = λ w s g c n b. ok (mail_message ∷ []);
  ack = λ w s g i. ok tt;
  create_group = λ w s g. ok tt;
  range = λ w s a b n. ok (mail_message ∷ empty_message ∷ []);
  delete = λ w s is. ok tt;
  publish = λ w e. ok tt;
  process = λ w d t. returned t (some "timeout");
  check = λ w k. ok (not (was_checked k w));
  send = λ w m. true;
  done = λ w. false;
}

-- As before, but that every XADD fails.
abbrev pub lost_store : Environment
lost_store = record weak_run { add = λ w s t. err "connection refused" }

-- As before, but that every run panics.
abbrev pub bad_code : Environment
bad_code = record weak_run { process = λ w d t. panicked "nil map" }

-- As before, but that every run succeeds.
abbrev pub good_run : Environment
good_run = record weak_run { process = λ w d t. returned t none }

abbrev pub shop : Consumer Log
shop = record {
  store = recorded_store weak_run;
  publisher = recorded_publisher weak_run;
  processor = recorded_processor weak_run;
  idempotency = some (recorded_checker weak_run);
  stream = "tasks";
  group = "workers";
  consumer = "node";
  worker_count = pos 2;
  fetch_batch_size = pos 10;
  block_timeout = pos 2_000_000_000;
  dlq_stream = "tasks_dlq";
  max_retries = pos 2;
}

abbrev pub fast_shop : PriorityConsumer Log
fast_shop = record {
  store = recorded_store weak_run;
  publisher = recorded_publisher weak_run;
  processor = recorded_processor weak_run;
  base_stream = "tasks";
  group = "workers";
  consumer = "node";
  worker_count = pos 2;
  fetch_batch_size = pos 10;
  block_timeout = pos 2_000_000_000;
  max_retries = pos 2;
}

abbrev pub settings : Config
settings = record {
  redis_addr = "localhost:6379";
  redis_cluster = false;
  redis_addrs = [];
  stream_name = "tasks";
  group_name = "workers";
  consumer_name = "node";
  worker_count = pos 5;
  fetch_batch_size = pos 10;
  block_timeout = pos 2_000_000_000;
  api_port = ":8080";
  metrics_port = ":2112";
  cors_origins = "*" ∷ [];
  api_key = "";
  mock_task_interval = pos 1_000_000_000;
  max_retries = pos 3;
  enable_mock_tasks = true;
  enable_priority = false;
  dlq_stream_name = "tasks_dlq";
}
