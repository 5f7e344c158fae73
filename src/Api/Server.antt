-- ===== src/Api/Server.antt =====
-- The handlers and the middleware chain of api/server.go; `Serving` models how `Start` ends.
pub mod Replay
pub mod Chain
pub mod Conservation
pub mod Origins
pub mod Guard
pub mod Serving
use Prim.Native.String.{String, ◌++◌}
use forge_task_queue.Common.{
  ℕ, suc, Bool, true, false, Option, none, some, List, [], ◌∷◌, Action, pure, ◌>>=◌, ◌==◌,
  if◌then◌else◌,
}
use forge_task_queue.Common.Int.{ℤ, pos}
use forge_task_queue.Task.{Task, Event, Result, ok, err}
use forge_task_queue.Task.Json.{Json, Items, nil, cons, Members, end, member}
use forge_task_queue.Task.Codec.{TimeFormat, unmarshal}
use forge_task_queue.Task.Store.{StreamMessage, StreamStore, EventPublisher, payload_of}
use forge_task_queue.Api.Http.{
  Request, Response, Chunk, raw, json, get_header, set_header, write, http_error, respond, Served,
  served, Handler,
}
use forge_task_queue.Api.Limiter.{RateLimiter}
use forge_task_queue.Api.Middleware.{
  invalid_key, cors_middleware, panic_recovery_middleware, rate_limit_middleware,
}

-- `ping`, `uptime` and `subscription` stand for calls of the Redis client, the clock and the Redis
-- client again: the last gives the payloads delivered until it or the request ends. `can_flush` tells
-- whether net/http's response writer is a Flusher.
pub record Server (W : Type 0) : Type 0 where
  pub store : StreamStore W
  pub publisher : EventPublisher W
  pub ping : Action W (Result (Unit {0}))
  pub uptime : Action W String
  pub can_flush : Bool
  pub subscription : Action W (List String)
  pub stream : String
  pub dlq_stream : String
  pub api_key : String
  pub origins : List String

-- `NewServer`, with the calls of its client and its clock in place of the two.
unfoldable pub new_server :
    {W : Type 0}
    → StreamStore W
    → EventPublisher W
    → Action W (Result (Unit {0}))
    → Action W String
    → Bool
    → Action W (List String)
    → String
    → String
    → String
    → List String
    → Server W
new_server store publisher ping uptime can_flush subscription stream dlq_stream api_key origins =
    record {
      store = store;
      publisher = publisher;
      ping = ping;
      uptime = uptime;
      can_flush = can_flush;
      subscription = subscription;
      stream = stream;
      dlq_stream = dlq_stream;
      api_key = api_key;
      origins = origins;
    }

-- One worker of `handleWorkers`; 256.0 is written as an integer.
abbrev worker_row : String → Json → Json → Json
worker_row id cpu memory = Json.obj (
    member "id" (Json.str id)
      (member "cpu" cpu (member "memory" memory (member "status" (Json.str "active") end))))

abbrev pub worker_rows : Json
worker_rows = Json.arr (
    cons (worker_row "worker_node_1-1" (Json.real "42.5") (Json.real "312.8")) (
      cons (worker_row "worker_node_1-2" (Json.real "38.2") (Json.real "289.4")) (
        cons (worker_row "worker_node_1-3" (Json.real "55.1") (Json.real "401.2")) (
          cons (worker_row "worker_node_1-4" (Json.real "29.7") (Json.int (pos 256)))
            (cons (worker_row "worker_node_1-5" (Json.real "61.3") (Json.real "445.6")) nil)))))

-- The lines of the payloads that the subscription delivers.
pub sse_lines : List String → Response → Response
sse_lines [] resp = resp
sse_lines (payload ∷ rest) resp =
    sse_lines rest (write (raw ("data: " ++ (payload ++ "\n\n"))) resp)

-- The first call of `Write` writes status 200; `worker_rows` is what the encoder writes.
unfoldable pub handle_workers : Response → Response
handle_workers resp = respond 200 (json worker_rows) resp

-- The answer after a replay; a map is written with its keys in order.
abbrev pub replay_body : ℕ → Json
replay_body retried =
    Json.obj (member "retried" (Json.int (pos retried)) (member "success" (Json.bool true) end))

module _ {W : Type 0} ⦃times : TimeFormat⦄ (s : Server W) where
  pub pending_event : Task → Event
  pending_event t = record { type = "Pending"; task_id = t.id; worker_id = "" }

  -- One message of the dead-letter stream that holds a task: the task goes back to the stream with
  -- no retries counted, and the message is deleted; whether it was retried is the result.
  replay_task : StreamMessage → Task → Action W Bool
  unfolding pending_event
  replay_task msg t w =
      let (added, w) = s.store.add s.stream t w in
      elim added [
        | err _ ↦ (false, w)
        | ok _ ↦
            let (deleted, w) = s.store.delete s.dlq_stream (msg.id ∷ []) w in
            let (published, w) = s.publisher.publish (pending_event t) w in (true, w)
      ]

  pub replay_message : StreamMessage → Action W Bool
  unfolding replay_task
  replay_message msg = elim (payload_of msg) [
    | none ↦ pure false
    | some payload ↦ elim (unmarshal payload) [
      | none ↦ pure false
      | some t ↦ replay_task msg (record t { current_retries = pos 0 })
    ]
  ]

  -- The loop over the messages, with the number of tasks retried so far.
  replay_messages : List StreamMessage → ℕ → Action W ℕ
  unfolding replay_message
  replay_messages [] retried w = (retried, w)
  replay_messages (msg ∷ rest) retried w =
      let (done, w) = replay_message msg w in
      replay_messages rest (if done then suc retried else retried) w

  -- The replay itself, once the request is let in.
  pub replay_dlq : Response → Action W Served
  unfolding replay_messages
  replay_dlq resp = do
    r ← s.store.range s.dlq_stream "-" "+" (pos 0)
    elim r [
      | err _ ↦ pure (served (respond 500 (raw "{\"error\":\"Failed to read DLQ\"}") resp))
      | ok messages ↦ do
        retried ← replay_messages messages 0
        pure (served (respond 200 (json (replay_body retried)) resp))
    ]

  unfoldable pub handle_retry_dlq : Handler W
  unfolding replay_dlq
  handle_retry_dlq r resp =
      if r.method == "POST"
      then (if s.api_key == ""
          then replay_dlq resp
          else if get_header r "Authorization" == "Bearer " ++ s.api_key
          then replay_dlq resp
          else pure (served (respond 401 invalid_key resp)))
      else pure (served (respond 405 (raw "{\"error\":\"Method not allowed\"}") resp))

  health_body : Bool → String → Json
  health_body redis_ok uptime = Json.obj (
      member "redis" (Json.bool redis_ok) (
        member "status" (Json.str (if redis_ok then "healthy" else "degraded"))
          (member "uptime" (Json.str uptime) end)))

  unfoldable pub handle_health : Handler W
  unfolding health_body
  handle_health r resp = do
    pong ← s.ping
    uptime ← s.uptime
    let redis_ok : Bool = elim pong [ ok _ ↦ true | err _ ↦ false ]
    let code : ℕ = if redis_ok then 200 else 503
    pure (served (respond code (json (health_body redis_ok uptime)) resp))

  -- The event stream; without a Flusher nothing is subscribed.
  unfoldable pub handle_stream : Handler W
  unfolding sse_lines
  handle_stream r resp =
      let resp = set_header "Connection" "keep-alive" (
        set_header "Cache-Control" "no-cache"
          (set_header "Content-Type" "text/event-stream" resp)) in
      if s.can_flush
      then (do
        payloads ← s.subscription
        pure (served (sse_lines payloads (write (raw "data: {\"type\":\"ping\"}\n\n") resp))))
      else pure (served (http_error "{\"error\":\"Streaming unsupported\"}" 500 resp))

  -- The routes of the mux; `missing` is what net/http answers for any other path.
  pub mux : Handler W → Handler W
  mux missing r resp =
      if r.path == "/api/stream"
      then handle_stream r resp
      else if r.path == "/api/workers"
      then pure (served (handle_workers resp))
      else if r.path == "/api/retry-dlq"
      then handle_retry_dlq r resp
      else if r.path == "/api/health"
      then handle_health r resp
      else missing r resp

  -- A handler beside the state of the rate limiter.
  abbrev pub beside_limiter : Handler W → Handler (RateLimiter × W)
  beside_limiter h r resp (rl, w) = let (a, w) = h r resp w in (a, (rl, w))

  -- The handler that `Start` serves.
  unfoldable pub handler : Action W (ℕ × ℕ) → Handler W → Handler (RateLimiter × W)
  unfolding mux
  handler clock missing =
      panic_recovery_middleware
        (cors_middleware s.origins (rate_limit_middleware clock (beside_limiter (mux missing))))
