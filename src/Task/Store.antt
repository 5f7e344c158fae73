-- ===== src/Task/Store.antt =====
-- task/store.go: the interfaces through which the program reaches the stream store, the event
-- channel, the task logic and the idempotency store, over a world `W` that their calls change.
-- The `context` that is passed down is left out, but for the deadline of a task.
use Prim.Native.String.{String}
use forge_task_queue.Common.{Bool, Option, none, some, List, [], ◌∷◌, Action, ◌==◌, if◌then◌else◌}
use forge_task_queue.Common.Int.{ℤ}
use forge_task_queue.Task.Defs.{Task, Event, Result}
use forge_task_queue.Task.Json.{JsonText}

-- A value of `map[string]interface{}`: a string, known up to its JSON, or a value of another type.
pub data Value : Type 0 where
  text : JsonText → Value
  other : Value

-- A message of a stream; a key is listed once.
pub record StreamMessage : Type 0 where
  pub id : String
  pub values : List (String × Value)

-- The argument `block interface{}`: a `time.Duration` in nanoseconds, or a value of another type.
pub data Block : Type 0 where
  duration : ℤ → Block
  not_duration : Block

pub record StreamStore (W : Type 0) : Type 0 where
  -- stream, task; the result is the id of the message
  pub add : String → Task → Action W (Result String)
  -- stream, group, consumer, count, block
  pub read_group : String → String → String → ℤ → Block → Action W (Result (List StreamMessage))
  -- stream, group, message id
  pub ack : String → String → String → Action W (Result (Unit {0}))
  -- stream, group
  pub create_group : String → String → Action W (Result (Unit {0}))
  -- stream, start, stop, count
  pub range : String → String → String → ℤ → Action W (Result (List StreamMessage))
  -- stream, message ids
  pub delete : String → List String → Action W (Result (Unit {0}))

pub record EventPublisher (W : Type 0) : Type 0 where
  pub publish : Event → Action W (Result (Unit {0}))

-- How `Process` ends: it returns nil or an error, and leaves the task that it was given, which it
-- may have changed through the pointer; or it panics.
pub data Outcome : Type 0 where
  returned : Task → Option String → Outcome
  panicked : String → Outcome

pub record TaskProcessor (W : Type 0) : Type 0 where
  -- The time limit put on the context, if any, and the task.
  pub process : Option ℤ → Task → Action W Outcome

-- `TaskProcessorFunc`: an ordinary function as a processor.
abbrev pub TaskProcessorFunc : Type 0 → Type 0
TaskProcessorFunc W = Option ℤ → Task → Action W Outcome

unfoldable pub processor_of : {W : Type 0} → TaskProcessorFunc W → TaskProcessor W
processor_of f = record { process = f }

pub record IdempotencyChecker (W : Type 0) : Type 0 where
  -- True if the key has not been seen before, and marks it as seen.
  pub check : String → Action W (Result Bool)

-- The type assertion `msg.Values["payload"].(string)`.
abbrev string_value : Value → Option JsonText
string_value (text t) = some t
string_value other = none

value_of : String → List (String × Value) → Option JsonText
value_of key [] = none
value_of key ((k, v) ∷ rest) = if k == key then string_value v else value_of key rest

unfoldable pub payload_of : StreamMessage → Option JsonText
unfolding value_of
payload_of m = value_of "payload" m.values

-- What a fetcher does besides reading: the `select` of a send on the channel of the workers with
-- `ctx.Done()`, true if the message was sent; `ctx.Err() != nil`, or the `select` with a default;
-- and `time.Sleep`.
pub record Dispatch (W : Type 0) : Type 0 where
  pub send : StreamMessage → Action W Bool
  pub done : Action W Bool
  pub pause : Action W (Unit {0})
