-- ===== src/Tests/Apis.antt =====
-- Requests to the API server.
use Prim.Native.String.{String, ◌++◌}
use forge_task_queue.Common.{
  none, ℕ, ◌+◌, ◌-◌, ◌*◌, ◌≤◌, ◌≡◌, ◌≢◌, ◌↔◌, refl, inl, inr, true, false, some, List, [], ◌∷◌,
  arith, ◌==◌, eq_iff, if◌then◌else◌, Action,
}
use forge_task_queue.Task.{ok}
use forge_task_queue.Calls.{Log, recorded_store, recorded_publisher, adds, count_calls, is_saved}
use forge_task_queue.Api.Http.{
  Request, raw, json, served, empty_response, respond, get_header, Handler,
}
use forge_task_queue.Api.Limiter.{RateLimiter, new_rate_limiter, allow, spend, seconds}
use forge_task_queue.Common.Int.{pos, ◌+ℤ◌}
use forge_task_queue.Common.Map.{lookup}
use forge_task_queue.Api.Limiter.Isolation.{verdicts, own, bucket_verdicts, verdicts-eq-bucket}
use forge_task_queue.Api.Limiter.History
use forge_task_queue.Api.Limiter.History.{request, cleaned, granted, granted-le}
use forge_task_queue.Api.Limiter.Admission.{Arrival}
use forge_task_queue.Api.Middleware.{api_key_middleware, client_key}
use forge_task_queue.Api.Middleware.Access.{Listed}
use forge_task_queue.Api.Server.Guard.{handle_retry_dlq-eq-api_key_middleware}
use forge_task_queue.Api.Server.{Server, handler, handle_retry_dlq, replay_dlq, replay_body}
use forge_task_queue.Api.Server.Replay
use forge_task_queue.Api.Server.Replay.{IsReplay, MayReplay, fresh_tasks, status_of, replay_lem}
use forge_task_queue.Api.Server.Origins.{IsNeutral, granted_origin}
use forge_task_queue.Api.Server.Origins.Responses.{granted_to, allow_origin-respond}
use forge_task_queue.Tests.Values.{unary_times, mail_message, empty_message, weak_run}

-- Two requests of a client in one second, a cleanup six minutes later, which deletes its bucket, and
-- another two requests.
abbrev requests : List History.Event
requests =
    request (record { ip = "a"; since = 10; now = 11 })
    ∷ request (record { ip = "a"; since = 30; now = 31 })
    ∷ cleaned (λ ip. 360_000_000_000) 360_000_000_000
    ∷ request (record { ip = "a"; since = 360_000_000_010; now = 360_000_000_010 })
    ∷ request (record { ip = "b"; since = 360_000_000_020; now = 360_000_000_020 })
    ∷ []

granted-le_example :
    granted "a" (new_rate_limiter 100 1) requests ≤ 1 + seconds (360_000_000_030 - 0) * 100
granted-le_example =
    granted-le "a" 100 1 0 360_000_000_030 requests (omega arith) (λ more. omega arith)
      (
        omega arith,
        omega arith,
        (
          omega arith,
          omega arith,
          (
            λ ip. (omega arith, omega arith),
            (omega arith, omega arith, (omega arith, omega arith, omega arith)),
          ),
        ),
      )

verdicts-eq-bucket_example :
    verdicts "a" (new_rate_limiter 100 1) requests ≡ bucket_verdicts 100 1 none (own "a" requests)
verdicts-eq-bucket_example = verdicts-eq-bucket "a" 100 1 requests

-- A client that returns every half second.
abbrev steady : List Arrival
steady =
    record { ip = "a"; since = 500_000_000; now = 500_000_000 }
    ∷ record { ip = "a"; since = 1_000_000_000; now = 1_000_000_000 }
    ∷ record { ip = "a"; since = 1_500_000_000; now = 1_500_000_000 }
    ∷ []

abbrev server : Server Log
server = record {
  store = recorded_store weak_run;
  publisher = recorded_publisher weak_run;
  ping = λ w. (ok tt, w);
  uptime = λ w. ("1m", w);
  can_flush = true;
  subscription = λ w. ([], w);
  stream = "tasks";
  dlq_stream = "tasks_dlq";
  api_key = "secret";
  origins = "*" ∷ [];
}

abbrev post : Request
post = record {
  method = "POST";
  path = "/api/retry-dlq";
  remote_addr = "10.0.0.1:5000";
  headers = ("Authorization", "Bearer secret") ∷ [];
}

abbrev not_found : Handler Log
not_found r resp w = (served (respond 404 (raw "404 page not found") resp), w)

handle_retry_dlq-eq-api_key_middleware_example : handle_retry_dlq server post empty_response [] ≡ (
    if post.method == "POST"
    then api_key_middleware "secret" (λ r resp. replay_dlq server resp) post empty_response []
    else (served (respond 405 (raw "{\"error\":\"Method not allowed\"}") empty_response), []))
handle_retry_dlq-eq-api_key_middleware_example =
    handle_retry_dlq-eq-api_key_middleware server post empty_response []

post-MayReplay : MayReplay server post
unfolding get_header lookup
post-MayReplay = (refl, inr refl)

replay_lem_example :
    let a = Replay.answer weak_run server post in
    IsReplay unary_times server (mail_message ∷ empty_message ∷ []) a.1
    × (adds a.1 ≡ fresh_tasks unary_times "tasks" (mail_message ∷ empty_message ∷ []) [])
    × (a.0 ≡ served (respond 200 (json (replay_body (count_calls is_saved a.1))) empty_response))
replay_lem_example =
    replay_lem weak_run server post (mail_message ∷ empty_message ∷ []) post-MayReplay refl

-- The request without its key.
abbrev stranger : Request
stranger = record post { headers = [] }

stranger-MayReplay : ¬ (MayReplay server stranger)
unfolding get_header lookup
stranger-MayReplay (m, inl e) = ground (arith, eq_iff server.api_key "")
stranger-MayReplay (m, inr e) =
    ground (arith, eq_iff (get_header stranger "Authorization") ("Bearer " ++ server.api_key))

abbrev clock : Action Log (ℕ × ℕ)
clock w = ((10, 10), w)

-- A limiter with no tokens left for the client.
abbrev spent : RateLimiter
spent = record {
  visitors = ("10.0.0.1:5000", record { tokens = pos 0; last_seen = 5 }) ∷ [];
  rate = 100;
  burst = 2;
}

spent-refuses : (allow spent (client_key post) 10 10).0 ≡ false
unfolding allow client_key get_header lookup spend ◌+ℤ◌
spent-refuses = refl

abbrev shop : String
shop = "https://shop.example"

-- A page of the shop, with an exhausted bucket and no key.
abbrev page : Request
page = record stranger { headers = ("Origin", shop) ∷ [] }

abbrev shop_server : Server Log
shop_server = record server { origins = shop ∷ [] }

not_found-IsNeutral : IsNeutral not_found
not_found-IsNeutral r resp w = allow_origin-respond 404 (raw "404 page not found") resp

granted_origin_example :
    (granted_to (handler shop_server clock not_found page empty_response (spent, [])).0 ≡ some shop)
    ↔ ((shop ≡ get_header page "Origin") × (shop ≢ "") × Listed shop shop_server.origins)
granted_origin_example =
    granted_origin shop_server clock not_found page spent [] shop not_found-IsNeutral

-- Its answer, which is a refusal, is readable by the page.
page_reads_refusal :
    granted_to (handler shop_server clock not_found page empty_response (spent, [])).0 ≡ some shop
unfolding get_header lookup
page_reads_refusal =
    (granted_origin shop_server clock not_found page spent [] shop not_found-IsNeutral).1
      (refl, (λ e. ground (arith, eq_iff shop "")), inr (inl refl))
