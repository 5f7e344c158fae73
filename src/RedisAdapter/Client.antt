-- ===== src/RedisAdapter/Client.antt =====
-- The commands of go-redis that the program calls: a service that is not part of the repository.
use Prim.Native.String.{String}
use forge_task_queue.Common.{Bool, List, Action}
use forge_task_queue.Common.Int.{ℤ}
use forge_task_queue.Task.{Result}
use forge_task_queue.Task.Json.{JsonText}
use forge_task_queue.Task.Store.{Value}

pub record XMessage : Type 0 where
  pub id : String
  pub values : List (String × Value)

pub record XStream : Type 0 where
  pub stream : String
  pub messages : List XMessage

pub record RedisClient (W : Type 0) : Type 0 where
  -- stream, fields
  pub xadd : String → List (String × Value) → Action W (Result String)
  -- group, consumer, streams, count, block
  pub xread_group : String → String → List String → ℤ → ℤ → Action W (Result (List XStream))
  -- stream, group, message id
  pub xack : String → String → String → Action W (Result (Unit {0}))
  -- stream, group, start
  pub xgroup_create_mkstream : String → String → String → Action W (Result (Unit {0}))
  -- stream, start, stop, count
  pub xrange_n : String → String → String → ℤ → Action W (Result (List XMessage))
  -- stream, message ids
  pub xdel : String → List String → Action W (Result (Unit {0}))
  -- key, value, time to live
  pub set_nx : String → String → ℤ → Action W (Result Bool)
  -- channel, message
  pub publish : String → JsonText → Action W (Result (Unit {0}))
