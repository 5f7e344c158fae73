-- ===== src/Api/Server/Origins.antt =====
-- Which origin an answer of the server grants access to, over all routes and refusals.
pub mod Responses
use Prim.Native.String.{String}
use forge_task_queue.Common.{
  ℕ, ◌≡◌, ◌≢◌, refl, ◌∙◌, ◌↔◌, Bool, true, false, Option, none, some, List, [], ◌∷◌, Action, arith,
  ◌==◌, if◌then◌else◌, Bool-cases, inl, inr,
}
use forge_task_queue.Common.Int.{pos}
use forge_task_queue.Common.Map.{lookup, insert, lookup-insert}
use forge_task_queue.Task.{Result-cases}
use forge_task_queue.Task.Codec.{TimeFormat}
use forge_task_queue.Api.Http.{
  Request, Response, Chunk, raw, json, respond, http_error, Served, served, crashed, Handler,
  empty_response, get_header, set_header, write_header, write,
}
use forge_task_queue.Api.Limiter.{RateLimiter, allow}
use forge_task_queue.Api.Middleware.{
  client_key, invalid_key, recover, cors_middleware, cors_response, cors_headers, origin_allowed,
  rate_limit_middleware, panic_recovery_middleware,
}
use forge_task_queue.Api.Middleware.Access.{Listed, origin_allowed_iff}
use forge_task_queue.Api.Server.{
  Server, beside_limiter, handler, mux, handle_stream, sse_lines, handle_workers, handle_retry_dlq,
  replay_dlq, replay_messages, replay_body, handle_health, worker_rows,
}
use forge_task_queue.Api.Server.Origins.Responses.{
  allow_origin, granted_to, allow_origin-write_header, allow_origin-respond,
  allow_origin-http_error, allow_origin-streamed, allow_origin-unstreamed,
}

-- A handler that leaves the grant of the response alone.
abbrev pub IsNeutral : {W : Type 0} → Handler W → Type 0
IsNeutral {W} h =
    (r : Request) (resp : Response) (w : W) → granted_to (h r resp w).0 ≡ allow_origin resp

granted_to-recover : (a : Served) → granted_to (recover a) ≡ granted_to a
granted_to-recover (served resp) = refl
granted_to-recover (crashed resp message) =
    allow_origin-http_error "{\"error\":\"Internal server error\"}" 500 resp

-- The grant of the CORS headers.
allow_origin-cors_response :
    (origin : String) (allowed : List String)
    → allow_origin (cors_response origin allowed empty_response)
      ≡ (if origin_allowed origin allowed then some origin else none)
unfolding cors_response cors_headers set_header lookup insert
allow_origin-cors_response origin allowed = elim (Bool-cases (origin_allowed origin allowed)) [
  | inl listed ↦ rw listed refl
  | inr other ↦ rw other refl
]

module _ {W : Type 0} where
  rate_limit_middleware-IsNeutral :
      (clock : Action W (ℕ × ℕ)) (next : Handler (RateLimiter × W))
      → IsNeutral next
      → IsNeutral (rate_limit_middleware clock next)
  unfolding rate_limit_middleware
  rate_limit_middleware-IsNeutral clock next neutral r resp (rl, w) =
      let spent = allow rl (client_key r) (clock w).0.0 (clock w).0.1 in
      elim (Bool-cases spent.0) [
        | inl allowed ↦ ground (arith, neutral r resp (spent.1, (clock w).1))
        | inr refused ↦
            ground
              (arith, allow_origin-respond 429 (raw "{\"error\":\"Rate limit exceeded\"}") resp)
      ]

  granted_to-cors_middleware :
      (allowed : List String) (next : Handler W) (r : Request) (resp : Response) (w : W)
      → IsNeutral next
      → granted_to (cors_middleware allowed next r resp w).0
        ≡ allow_origin (cors_response (get_header r "Origin") allowed resp)
  unfolding cors_middleware
  granted_to-cors_middleware allowed next r resp w neutral =
      let headed = cors_response (get_header r "Origin") allowed resp in
      ground (arith, allow_origin-write_header 200 headed, neutral r headed w)

  granted_to-panic_recovery_middleware :
      (next : Handler W) (r : Request) (resp : Response) (w : W)
      → granted_to (panic_recovery_middleware next r resp w).0 ≡ granted_to (next r resp w).0
  unfolding panic_recovery_middleware
  granted_to-panic_recovery_middleware next r resp w = granted_to-recover (next r resp w).0

module _ {W : Type 0} ⦃times : TimeFormat⦄ (s : Server W) where
  granted_to-replay_dlq :
      (resp : Response) (w : W) → granted_to (replay_dlq s resp w).0 ≡ allow_origin resp
  unfolding replay_dlq
  granted_to-replay_dlq resp w =
      let listing = s.store.range s.dlq_stream "-" "+" (pos 0) w in
      elim (Result-cases listing.0) [
        | inl (message, failed) ↦
            ground (arith, allow_origin-respond 500 (raw "{\"error\":\"Failed to read DLQ\"}") resp)
        | inr (messages, listed) ↦
            let retried = (replay_messages s messages 0 listing.1).0 in
            ground (arith, allow_origin-respond 200 (json (replay_body retried)) resp)
      ]

  handle_retry_dlq-IsNeutral : IsNeutral (handle_retry_dlq s)
  unfolding handle_retry_dlq
  handle_retry_dlq-IsNeutral r resp w = ground (
    arith,
    granted_to-replay_dlq resp w,
    allow_origin-respond 401 invalid_key resp,
    allow_origin-respond 405 (raw "{\"error\":\"Method not allowed\"}") resp,
  )

  handle_stream-IsNeutral : IsNeutral (handle_stream s)
  unfolding handle_stream
  handle_stream-IsNeutral r resp w =
      ground (arith, allow_origin-streamed (s.subscription w).0 resp, allow_origin-unstreamed resp)

  handle_health-IsNeutral : IsNeutral (handle_health s)
  unfolding handle_health
  handle_health-IsNeutral r resp w = allow_origin-respond _ _ resp

  mux-IsNeutral : (missing : Handler W) → IsNeutral missing → IsNeutral (mux s missing)
  unfolding mux handle_workers
  mux-IsNeutral missing neutral r resp w = ground (
    arith,
    handle_stream-IsNeutral r resp w,
    allow_origin-respond 200 (json worker_rows) resp,
    handle_retry_dlq-IsNeutral r resp w,
    handle_health-IsNeutral r resp w,
    neutral r resp w,
  )

  -- What the chain grants is what the CORS headers grant, which no later handler changes.
  granted_to-handler :
      (clock : Action W (ℕ × ℕ)) (missing : Handler W) (r : Request) (rl : RateLimiter) (w : W)
      → IsNeutral missing
      → granted_to (handler s clock missing r empty_response (rl, w)).0
        ≡ allow_origin (cors_response (get_header r "Origin") s.origins empty_response)
  unfolding handler
  granted_to-handler clock missing r rl w neutral =
      granted_to-panic_recovery_middleware _ r empty_response (rl, w)
      ∙ granted_to-cors_middleware s.origins _ r empty_response (rl, w)
          (rate_limit_middleware-IsNeutral clock (beside_limiter s (mux s missing))
            (λ r resp (rl, w). mux-IsNeutral missing neutral r resp w))

  -- Whatever the server answers, on any route, to a preflight, with a refusal or after a panic, the
  -- answer lets an origin read it exactly if that origin is the request's Origin, is not empty, and
  -- is listed or a star is: if net/http's own answer to an unknown path does not touch this header.
  pub granted_origin :
      (clock : Action W (ℕ × ℕ)) (missing : Handler W) (r : Request) (rl : RateLimiter) (w : W)
      (origin : String)
      → IsNeutral missing
      → (granted_to (handler s clock missing r empty_response (rl, w)).0 ≡ some origin)
        ↔ ((origin ≡ get_header r "Origin") × (origin ≢ "") × Listed origin s.origins)
  granted_origin clock missing r rl w origin neutral =
      let asked = get_header r "Origin" in
      rw
        (
          granted_to-handler clock missing r rl w neutral,
          allow_origin-cors_response asked s.origins,
        )
        (ground (arith, origin_allowed_iff asked s.origins))
