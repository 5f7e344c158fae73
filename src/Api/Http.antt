-- ===== src/Api/Http.antt =====
-- What the handlers use of net/http: requests, responses that are written step by step, handlers
-- that may panic.
use Prim.Native.String.{String}
use forge_task_queue.Common.{ℕ, Option, none, some, List, [], ◌∷◌, ◌++◌, Action}
use forge_task_queue.Common.Map.{lookup, insert}
use forge_task_queue.Task.Json.{Json}

-- The headers are listed by canonical name, with the first value of each.
pub record Request : Type 0 where
  pub method : String
  pub path : String
  pub remote_addr : String
  pub headers : List (String × String)

-- A piece of the body: a text, or a JSON value that an encoder writes.
pub data Chunk : Type 0 where
  raw : String → Chunk
  json : Json → Chunk

-- `status` is `none` until the header is written.
pub record Response : Type 0 where
  pub status : Option ℕ
  pub headers : List (String × String)
  pub body : List Chunk

abbrev pub empty_response : Response
empty_response = record { status = none; headers = []; body = [] }

-- `r.Header.Get`: a missing header reads as the empty text.
unfoldable pub get_header : Request → String → String
get_header r name = elim (lookup name r.headers) [ none ↦ "" | some v ↦ v ]

-- `w.Header().Set`: once the header is written this has no effect on the response.
unfoldable pub set_header : String → String → Response → Response
set_header name v resp = elim resp.status [
  | none ↦ record resp { headers = insert name v resp.headers }
  | some _ ↦ resp
]

-- `w.WriteHeader`: only the first call counts.
unfoldable pub write_header : ℕ → Response → Response
write_header code resp = elim resp.status [
  | none ↦ record resp { status = some code }
  | some _ ↦ resp
]

-- `w.Write`, which writes the header with status 200 if nothing has been written.
unfoldable pub write : Chunk → Response → Response
unfolding write_header
write chunk resp = record (write_header 200 resp) { body = resp.body ++ chunk ∷ [] }

-- `http.Error`; no handler sets the headers that it deletes.
unfoldable pub http_error : String → ℕ → Response → Response
unfolding set_header write_header write
http_error message code resp = write (raw message) (
    write_header code (
      set_header "X-Content-Type-Options" "nosniff"
        (set_header "Content-Type" "text/plain; charset=utf-8" resp)))

-- How a handler ends: with what it has written, and perhaps with a panic.
pub data Served : Type 0 where
  served : Response → Served
  crashed : Response → String → Served

abbrev pub Handler : Type 0 → Type 0
Handler W = Request → Response → Action W Served

-- A JSON answer, in the order in which the handlers write it.
unfoldable pub respond : ℕ → Chunk → Response → Response
unfolding set_header write_header write
respond code chunk resp =
    write chunk (write_header code (set_header "Content-Type" "application/json" resp))
