-- ===== src/Api/Middleware.antt =====
-- The middleware of api/middleware.go, and the guard on the API key.
pub mod Access
use Prim.Native.String
use Prim.Native.String.{String, ◌++◌}
use forge_task_queue.Common.{
  ℕ, Bool, true, false, not, ◌&&◌, ◌||◌, Option, none, some, List, [], ◌∷◌, Action, pure, ◌==◌,
  if◌then◌else◌,
}
use forge_task_queue.Common.Text.{split_commas, cut_prefix}
use forge_task_queue.Api.Http.{
  Request, Response, Chunk, raw, get_header, set_header, write_header, http_error, respond, Served,
  served, crashed, Handler,
}
use forge_task_queue.Api.Limiter.{RateLimiter, allow}

any_origin : String → List String → Bool
any_origin origin [] = false
any_origin origin (a ∷ allowed) = a == "*" || a == origin || any_origin origin allowed

unfoldable pub origin_allowed : String → List String → Bool
unfolding any_origin
origin_allowed origin allowed = if origin == "" then false else any_origin origin allowed

unfoldable pub cors_headers : String → Response → Response
cors_headers origin resp = set_header "Access-Control-Allow-Credentials" "true" (
    set_header "Access-Control-Allow-Headers" "Content-Type, Authorization" (
      set_header "Access-Control-Allow-Methods" "GET, POST, OPTIONS"
        (set_header "Access-Control-Allow-Origin" origin resp)))

-- The headers for an allowed origin.
unfoldable pub cors_response : String → List String → Response → Response
unfolding cors_headers
cors_response origin allowed resp =
    if origin_allowed origin allowed then cors_headers origin resp else resp

-- The message of a refusal for want of the API key.
abbrev pub invalid_key : Chunk
invalid_key = raw "{\"error\":\"Invalid or missing API key\"}"

-- `!strings.HasPrefix(auth, "Bearer ") || strings.TrimPrefix(auth, "Bearer ") != apiKey`, negated.
unfoldable pub bears_key : String → String → Bool
bears_key key auth = elim (cut_prefix "Bearer " auth) [ none ↦ false | some rest ↦ rest == key ]

-- The key of a request's bucket: the first part of X-Forwarded-For, else the remote address.
unfoldable pub client_key : Request → String
client_key r =
    if get_header r "X-Forwarded-For" == ""
    then r.remote_addr
    else (elim (split_commas (get_header r "X-Forwarded-For")) [ [] ↦ "" | first ∷ _ ↦ first ])

-- A panic of the handler becomes an answer with status 500, unless a header was already written.
abbrev pub recover : Served → Served
recover (served resp) = served resp
recover (crashed resp message) =
    served (http_error "{\"error\":\"Internal server error\"}" 500 resp)

module _ {W : Type 0} where
  unfoldable pub cors_middleware : List String → Handler W → Handler W
  cors_middleware allowed next r resp =
      let resp = cors_response (get_header r "Origin") allowed resp in
      if r.method == "OPTIONS" then pure (served (write_header 200 resp)) else next r resp

  unfoldable pub api_key_middleware : String → Handler W → Handler W
  unfolding bears_key
  api_key_middleware key next r resp =
      if key == ""
      then next r resp
      else if bears_key key (get_header r "Authorization")
      then next r resp
      else pure (served (respond 401 invalid_key resp))

  unfoldable pub panic_recovery_middleware : Handler W → Handler W
  panic_recovery_middleware next r resp w = let (s, w') = next r resp w in (recover s, w')

  -- The limiter is shared state beside the world; `clock` gives the two readings of one request.
  unfoldable pub rate_limit_middleware :
      Action W (ℕ × ℕ) → Handler (RateLimiter × W) → Handler (RateLimiter × W)
  rate_limit_middleware clock next r resp (rl, w) =
      let ((since, now), w') = clock w in
      let (allowed, rl') = allow rl (client_key r) since now in
      if allowed
      then next r resp (rl', w')
      else (served (respond 429 (raw "{\"error\":\"Rate limit exceeded\"}") resp), (rl', w'))
