-- ===== src/Config.antt =====
-- config/config.go: the configuration read from environment variables.
pub mod Strconv
pub mod Lists
pub mod Numbers
use Prim.Native.String.{String}
use forge_task_queue.Common.{
  Bool, true, false, Option, none, some, List, [], ◌∷◌, ◌==◌, if◌then◌else◌,
}
use forge_task_queue.Common.Int.{ℤ, pos}
use forge_task_queue.Common.Text.{split_commas}
use forge_task_queue.Config.Strconv.{atoi, parse_bool, trim_space}

pub record Config : Type 0 where
  pub redis_addr : String
  pub redis_cluster : Bool
  pub redis_addrs : List String
  pub stream_name : String
  pub group_name : String
  pub consumer_name : String
  pub worker_count : ℤ
  pub fetch_batch_size : ℤ
  pub block_timeout : ℤ
  pub api_port : String
  pub metrics_port : String
  pub cors_origins : List String
  pub api_key : String
  pub mock_task_interval : ℤ
  pub max_retries : ℤ
  pub enable_mock_tasks : Bool
  pub enable_priority : Bool
  pub dlq_stream_name : String

-- `os.Getenv`, the empty text for a variable that is not set, and `time.ParseDuration`, in
-- nanoseconds.
pub record Host : Type 0 where
  pub getenv : String → String
  pub parse_duration : String → Option ℤ

unfoldable or_fallback : {A : Type 0} → Option A → A → A
or_fallback none fallback = fallback
or_fallback (some a) fallback = a

-- The parts of a list that are kept: those that are not empty once trimmed.
kept_parts : List String → List String
kept_parts [] = []
kept_parts (part ∷ parts) =
    let rest = kept_parts parts in if trim_space part == "" then rest else trim_space part ∷ rest

module _ (host : Host) where
  open host use {getenv, parse_duration}

  unfoldable pub env_or_default : String → String → String
  env_or_default key fallback = if getenv key == "" then fallback else getenv key

  unfoldable pub env_int_or_default : String → ℤ → ℤ
  unfolding or_fallback
  env_int_or_default key fallback =
      if getenv key == "" then fallback else or_fallback (atoi (getenv key)) fallback

  unfoldable pub env_bool_or_default : String → Bool → Bool
  unfolding or_fallback
  env_bool_or_default key fallback =
      if getenv key == "" then fallback else or_fallback (parse_bool (getenv key)) fallback

  unfoldable pub env_duration_or_default : String → ℤ → ℤ
  unfolding or_fallback
  env_duration_or_default key fallback =
      if getenv key == "" then fallback else or_fallback (parse_duration (getenv key)) fallback

  unfoldable pub env_list_or_default : String → List String → List String
  unfolding kept_parts
  env_list_or_default key fallback =
      if getenv key == "" then fallback else kept_parts (split_commas (getenv key))

  -- `Load`
  unfoldable pub load : Config
  unfolding env_or_default env_int_or_default env_bool_or_default env_duration_or_default
      env_list_or_default
  load = record {
    redis_addr = env_or_default "REDIS_ADDR" "localhost:6379";
    redis_cluster = env_bool_or_default "REDIS_CLUSTER" false;
    redis_addrs = env_list_or_default "REDIS_ADDRS" ("localhost:6379" ∷ []);
    stream_name = env_or_default "STREAM_NAME" "buraq_tasks";
    group_name = env_or_default "GROUP_NAME" "buraq_workers";
    consumer_name = env_or_default "CONSUMER_NAME" "worker_node_1";
    worker_count = env_int_or_default "WORKER_COUNT" (pos 5);
    fetch_batch_size = env_int_or_default "FETCH_BATCH_SIZE" (pos 10);
    block_timeout = env_duration_or_default "BLOCK_TIMEOUT" (pos 2_000_000_000);
    api_port = env_or_default "API_PORT" ":8080";
    metrics_port = env_or_default "METRICS_PORT" ":2112";
    cors_origins = env_list_or_default "CORS_ORIGINS" ("http://localhost:3000" ∷ []);
    api_key = env_or_default "API_KEY" "";
    mock_task_interval = env_duration_or_default "MOCK_TASK_INTERVAL" (pos 2_000_000_000);
    max_retries = env_int_or_default "MAX_RETRIES" (pos 3);
    enable_mock_tasks = env_bool_or_default "ENABLE_MOCK_TASKS" true;
    enable_priority = env_bool_or_default "ENABLE_PRIORITY" false;
    dlq_stream_name = env_or_default "DLQ_STREAM_NAME" "buraq_tasks_dlq";
  }
