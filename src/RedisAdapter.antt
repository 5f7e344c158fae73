-- ===== src/RedisAdapter.antt =====
-- redisadapter/ and event/publisher.go: the services over a Redis client.
pub mod Client
pub mod Streams
pub mod Groups
pub mod Entries
pub mod Idempotency
pub mod Pending
use Prim.Native.String.{String, ◌++◌}
use forge_task_queue.Common.{
  ℕ, Bool, true, false, Option, none, some, List, [], ◌∷◌, ◌++◌ as append, Action, pure, ◌>>=◌,
  ◌==◌, if◌then◌else◌, nat_eq,
}
use forge_task_queue.Common.Int.{ℤ, pos, negsuc}
use forge_task_queue.Task.{Task, Event, Result, ok, err}
use forge_task_queue.Task.Json.{Json, Members, end, member, JsonText, valid}
use forge_task_queue.Task.Codec.{TimeFormat, marshal}
use forge_task_queue.Task.Store.{
  StreamMessage, Value, text, Block, duration, not_duration, StreamStore, EventPublisher,
  IdempotencyChecker,
}
use forge_task_queue.RedisAdapter.Client.{RedisClient, XMessage, XStream}

-- The message of a Redis message.
abbrev pub message_of : XMessage → StreamMessage
message_of m = record { id = m.id; values = m.values }

-- The loop that copies the messages of a reply.
unfoldable pub copy_messages : List XMessage → List StreamMessage
copy_messages [] = []
copy_messages (m ∷ ms) = message_of m ∷ copy_messages ms

-- The loop over the streams of a reply.
unfoldable pub all_messages : List XStream → List StreamMessage
unfolding copy_messages
all_messages [] = []
all_messages (s ∷ rest) = append (copy_messages s.messages) (all_messages rest)

-- The wait of a read: two seconds for an argument that is no duration.
abbrev pub block_duration : Block → ℤ
block_duration (duration d) = d
block_duration not_duration = pos 2_000_000_000

abbrev busy_group : String
busy_group = "BUSYGROUP Consumer Group name already exists"

module _ {W : Type 0} ⦃times : TimeFormat⦄ (client : RedisClient W) where
  unfoldable pub add : String → Task → Action W (Result String)
  add stream t = elim (marshal t) [
    | err e ↦ pure (err e)
    | ok data_text ↦ client.xadd stream (("payload", text data_text) ∷ [])
  ]

  unfoldable pub read_group :
      String → String → String → ℤ → Block → Action W (Result (List StreamMessage))
  unfolding all_messages
  read_group stream group consumer count block = do
    r ← client.xread_group group consumer (stream ∷ ">" ∷ []) count (block_duration block)
    pure (elim r [ err e ↦ err e | ok streams ↦ ok (all_messages streams) ])

  unfoldable pub ack : String → String → String → Action W (Result (Unit {0}))
  ack stream group msg_id = client.xack stream group msg_id

  -- That the group exists already is no error.
  abbrev group_result : Result (Unit {0}) → Result (Unit {0})
  group_result (ok u) = ok u
  group_result (err e) = if e == busy_group then ok tt else err e

  unfoldable pub create_group : String → String → Action W (Result (Unit {0}))
  create_group stream group = do
    r ← client.xgroup_create_mkstream stream group "0"
    pure (group_result r)

  unfoldable pub range : String → String → String → ℤ → Action W (Result (List StreamMessage))
  unfolding copy_messages
  range stream start stop count = do
    r ← client.xrange_n stream start stop count
    pure (elim r [ err e ↦ err e | ok messages ↦ ok (copy_messages messages) ])

  unfoldable pub delete : String → List String → Action W (Result (Unit {0}))
  delete stream ids = client.xdel stream ids

  -- `NewStore`
  abbrev pub store : StreamStore W
  store = record {
    add = add;
    read_group = read_group;
    ack = ack;
    create_group = create_group;
    range = range;
    delete = delete;
  }

  -- `NewClusterStore`: the methods of ClusterStore have the bodies of those of Store, over the
  -- cluster's client.
  abbrev pub cluster_store : StreamStore W
  cluster_store = record {
    add = add;
    read_group = read_group;
    ack = ack;
    create_group = create_group;
    range = range;
    delete = delete;
  }

-- The key-value part of the client.
pub record IdempotencyStore (W : Type 0) : Type 0 where
  pub client : RedisClient W
  pub ttl : ℤ

is_zero : ℤ → Bool
is_zero (pos n) = nat_eq n 0
is_zero (negsuc _) = false

module _ {W : Type 0} where
  -- `NewIdempotencyStore`: a ttl of zero stands for a day.
  unfoldable pub new_idempotency_store : RedisClient W → ℤ → IdempotencyStore W
  unfolding is_zero
  new_idempotency_store client ttl = record {
    client = client;
    ttl = if is_zero ttl then pos 86_400_000_000_000 else ttl;
  }

  unfoldable pub check : IdempotencyStore W → String → Action W (Result Bool)
  check s key = s.client.set_nx ("idemp:" ++ key) "1" s.ttl

  abbrev pub idempotency_checker : IdempotencyStore W → IdempotencyChecker W
  idempotency_checker s = record { check = check s }

-- event/publisher.go
pub record Publisher (W : Type 0) : Type 0 where
  pub client : RedisClient W
  pub channel : String

-- `NewPublisher`
unfoldable pub new_publisher : {W : Type 0} → RedisClient W → String → Publisher W
new_publisher client channel = record { client = client; channel = channel }

-- `json.Marshal` of an event, which cannot fail.
unfoldable pub event_json : Event → Json
event_json e = Json.obj (
    member "type" (Json.str e.type)
      (member "task_id" (Json.str e.task_id) (member "worker_id" (Json.str e.worker_id) end)))

module _ {W : Type 0} where
  unfoldable pub publish : Publisher W → Event → Action W (Result (Unit {0}))
  unfolding event_json
  publish p e = p.client.publish p.channel (valid (event_json e))

  abbrev pub event_publisher : Publisher W → EventPublisher W
  event_publisher p = record { publish = publish p }
