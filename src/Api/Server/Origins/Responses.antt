-- ===== src/Api/Server/Origins/Responses.antt =====
-- The origin that a response grants access to, and what the writing of a response leaves of it.
use Prim.Native.String.{String}
use forge_task_queue.Common.{ℕ, ◌≡◌, refl, ◌∙◌, false, Option, List, [], ◌∷◌, arith, ◌==◌}
use forge_task_queue.Common.Map.{lookup, lookup-insert}
use forge_task_queue.Api.Http.{
  Response, Chunk, raw, respond, http_error, Served, served, crashed, set_header, write_header,
  write,
}
use forge_task_queue.Api.Server.{sse_lines}

-- The origin that a response grants access to.
abbrev pub allow_origin : Response → Option String
allow_origin resp = lookup "Access-Control-Allow-Origin" resp.headers

abbrev pub granted_to : Served → Option String
granted_to (served resp) = allow_origin resp
granted_to (crashed resp _) = allow_origin resp

allow_origin-set_header :
    (name value : String) (resp : Response)
    → (name == "Access-Control-Allow-Origin") ≡ false
    → allow_origin (set_header name value resp) ≡ allow_origin resp
unfolding set_header
allow_origin-set_header name value resp other =
    ground (arith, lookup-insert name "Access-Control-Allow-Origin" value resp.headers)

pub allow_origin-write_header :
    (code : ℕ) (resp : Response) → allow_origin (write_header code resp) ≡ allow_origin resp
unfolding write_header
allow_origin-write_header code resp = ground arith

allow_origin-write :
    (chunk : Chunk) (resp : Response) → allow_origin (write chunk resp) ≡ allow_origin resp
unfolding write
allow_origin-write chunk resp = allow_origin-write_header 200 resp

pub allow_origin-respond :
    (code : ℕ) (chunk : Chunk) (resp : Response)
    → allow_origin (respond code chunk resp) ≡ allow_origin resp
unfolding respond
allow_origin-respond code chunk resp =
    allow_origin-write chunk _
    ∙ allow_origin-write_header code _
    ∙ allow_origin-set_header "Content-Type" "application/json" resp refl

pub allow_origin-http_error :
    (message : String) (code : ℕ) (resp : Response)
    → allow_origin (http_error message code resp) ≡ allow_origin resp
unfolding http_error
allow_origin-http_error message code resp =
    let typed = set_header "Content-Type" "text/plain; charset=utf-8" resp in
    let guarded = set_header "X-Content-Type-Options" "nosniff" typed in
    allow_origin-write (raw message) (write_header code guarded)
    ∙ allow_origin-write_header code guarded
    ∙ allow_origin-set_header "X-Content-Type-Options" "nosniff" typed refl
    ∙ allow_origin-set_header "Content-Type" "text/plain; charset=utf-8" resp refl

allow_origin-sse_lines :
    (payloads : List String) (resp : Response)
    → allow_origin (sse_lines payloads resp) ≡ allow_origin resp
unfolding sse_lines
allow_origin-sse_lines [] resp = refl
allow_origin-sse_lines (p ∷ rest) resp = allow_origin-sse_lines rest _ ∙ allow_origin-write _ resp

-- The headers that `handle_stream` sets first.
abbrev stream_headers : Response → Response
stream_headers resp =
    set_header "Connection" "keep-alive"
      (set_header "Cache-Control" "no-cache" (set_header "Content-Type" "text/event-stream" resp))

allow_origin-stream_headers :
    (resp : Response) → allow_origin (stream_headers resp) ≡ allow_origin resp
allow_origin-stream_headers resp =
    let typed = set_header "Content-Type" "text/event-stream" resp in
    let fresh = set_header "Cache-Control" "no-cache" typed in
    allow_origin-set_header "Connection" "keep-alive" fresh refl
    ∙ allow_origin-set_header "Cache-Control" "no-cache" typed refl
    ∙ allow_origin-set_header "Content-Type" "text/event-stream" resp refl

-- An event stream, and its refusal.
pub allow_origin-streamed :
    (payloads : List String) (resp : Response)
    → allow_origin
        (sse_lines payloads (write (raw "data: {\"type\":\"ping\"}\n\n") (stream_headers resp)))
      ≡ allow_origin resp
allow_origin-streamed payloads resp =
    allow_origin-sse_lines payloads _
    ∙ allow_origin-write (raw "data: {\"type\":\"ping\"}\n\n") (stream_headers resp)
    ∙ allow_origin-stream_headers resp

pub allow_origin-unstreamed :
    (resp : Response)
    → allow_origin (http_error "{\"error\":\"Streaming unsupported\"}" 500 (stream_headers resp))
      ≡ allow_origin resp
allow_origin-unstreamed resp =
    allow_origin-http_error _ 500 (stream_headers resp) ∙ allow_origin-stream_headers resp
