-- ===== src/Api/Server/Guard.antt =====
-- The guard of the replay's endpoint beside the middleware on the API key.
use Prim.Native.String.{◌++◌}
use forge_task_queue.Common.{◌≡◌, ◌==◌, eq_iff, arith, if◌then◌else◌}
use forge_task_queue.Task.Codec.{TimeFormat}
use forge_task_queue.Api.Http.{Request, Response, raw, respond, served, get_header}
use forge_task_queue.Api.Middleware.{api_key_middleware}
use forge_task_queue.Api.Middleware.Access.{bears_key_iff}
use forge_task_queue.Api.Server.{Server, replay_dlq, handle_retry_dlq}

module _ {W : Type 0} ⦃times : TimeFormat⦄ (s : Server W) where
  -- The replay's endpoint guards a POST exactly as apiKeyMiddleware around the replay would,
  -- although it compares the Authorization header as a whole and the middleware cuts off the
  -- prefix: the same requests are let in, and the others get the same answer; any other method is
  -- answered with status 405.
  pub handle_retry_dlq-eq-api_key_middleware :
      (r : Request) (resp : Response) (w : W)
      → handle_retry_dlq s r resp w ≡ (
          if r.method == "POST"
          then api_key_middleware s.api_key (λ r resp. replay_dlq s resp) r resp w
          else (served (respond 405 (raw "{\"error\":\"Method not allowed\"}") resp), w))
  unfolding handle_retry_dlq api_key_middleware
  handle_retry_dlq-eq-api_key_middleware r resp w = ground (
    arith,
    bears_key_iff s.api_key (get_header r "Authorization"),
    eq_iff (get_header r "Authorization") ("Bearer " ++ s.api_key),
  )
