-- ===== src/Api/Server/Chain.antt =====
-- What the chain of middleware guarantees to every request.
use Prim.Native.String.{String}
use forge_task_queue.Common.{
  ℕ, ◌≡◌, refl, Bool, true, false, none, some, List, Action, eq_iff, arith,
}
use forge_task_queue.Task.Codec.{TimeFormat}
use forge_task_queue.Api.Http.{
  Request, Response, Chunk, raw, respond, Served, served, crashed, Handler, empty_response,
  get_header, set_header, write_header,
}
use forge_task_queue.Api.Limiter.{RateLimiter, allow}
use forge_task_queue.Api.Middleware.{
  client_key, cors_middleware, cors_response, rate_limit_middleware, panic_recovery_middleware,
}
use forge_task_queue.Api.Server.{Server, handler}
use forge_task_queue.Api.Server.Replay.{status_of}

abbrev pub headers_of : Served → List (String × String)
headers_of (served resp) = resp.headers
headers_of (crashed resp _) = resp.headers

-- Whether a handler ended without a panic.
abbrev pub is_served : Served → Bool
is_served (served _) = true
is_served (crashed _ _) = false

respond-status :
    (code : ℕ) (chunk : Chunk) (resp : Response)
    → resp.status ≡ none
    → (respond code chunk resp).status ≡ some code
unfolding respond
respond-status code chunk resp h = ground arith

cors_response-status :
    (origin : String) (allowed : List String)
    → (cors_response origin allowed empty_response).status ≡ none
unfolding cors_response set_header
cors_response-status origin allowed = ground arith

module _ {W : Type 0} where
  cors_passes :
      (allowed : List String) (next : Handler W) (r : Request) (resp : Response) (w : W)
      → ¬ (r.method ≡ "OPTIONS")
      → cors_middleware allowed next r resp w
        ≡ next r (cors_response (get_header r "Origin") allowed resp) w
  unfolding cors_middleware
  cors_passes allowed next r resp w h = ground (arith, eq_iff r.method "OPTIONS")

  rate_refused :
      (clock : Action W (ℕ × ℕ)) (next : Handler (RateLimiter × W)) (r : Request) (resp : Response)
      (rl : RateLimiter) (w : W)
      → (allow rl (client_key r) (clock w).0.0 (clock w).0.1).0 ≡ false
      → rate_limit_middleware clock next r resp (rl, w) ≡ (
        served (respond 429 (raw "{\"error\":\"Rate limit exceeded\"}") resp),
        ((allow rl (client_key r) (clock w).0.0 (clock w).0.1).1, (clock w).1),
      )
  unfolding rate_limit_middleware
  rate_refused clock next r resp rl w h = ground arith

module _ {W : Type 0} ⦃times : TimeFormat⦄ (s : Server W) (clock : Action W (ℕ × ℕ))
    (missing : Handler W) (r : Request) (rl : RateLimiter) (w : W) where
  abbrev pub answer : Served × (RateLimiter × W)
  answer = handler s clock missing r empty_response (rl, w)

  -- No panic of a handler gets out of the chain.
  pub no_panic : is_served answer.0 ≡ true
  unfolding handler panic_recovery_middleware
  no_panic = ground arith

  -- A preflight request is answered with status 200, spends no token and reaches no handler.
  preflight : r.method ≡ "OPTIONS" → (status_of answer.0 ≡ some 200) × (answer.1 ≡ (rl, w))
  unfolding handler panic_recovery_middleware cors_middleware cors_response write_header set_header
  preflight h = ground (arith, eq_iff r.method "OPTIONS")

  -- A request that is no preflight and that the limiter does not allow is answered with status 429,
  -- and reaches no handler: after the clock has been read the world is left alone.
  limited :
      ¬ (r.method ≡ "OPTIONS")
      → (allow rl (client_key r) (clock w).0.0 (clock w).0.1).0 ≡ false
      → (status_of answer.0 ≡ some 429)
        × (answer.1 ≡ ((allow rl (client_key r) (clock w).0.0 (clock w).0.1).1, (clock w).1))
  unfolding handler panic_recovery_middleware
  limited h d =
      rw (cors_passes _ _ r _ _ h, rate_refused clock _ r _ rl w d)
        (respond-status 429 _ _ (cors_response-status (get_header r "Origin") s.origins), refl)
