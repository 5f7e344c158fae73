-- ===== src/Api/Middleware/Access.antt =====
-- Who is let through: origins, the API key, the key of a client's bucket.
use Prim.Native.Char.{code}
use Prim.Native.String.{String, ◌++◌}
use text.Mathlib.TextLemmas.{nil-append, cons-append}
use text.Mathlib.TextEquality.{Char-path}
use forge_task_queue.Common.{
  ◌≡◌, ◌≢◌, refl, ap, ◌∙◌, ◌↔◌, ◌⊎◌, inl, inr, true, some, List, [], ◌∷◌, ◌==◌, ◌||◌, eq_iff,
  eq_refl, arith, nat_eq, if◌then◌else◌, Bool-cases, Option-cases,
}
use forge_task_queue.Common.Text.{cut_prefix}
use forge_task_queue.Api.Http.{Request, Response, Handler, served, get_header, respond}
use forge_task_queue.Api.Middleware.{
  any_origin, origin_allowed, bears_key, invalid_key, api_key_middleware,
}

-- An origin is listed if it stands in the list, or a star does.
abbrev pub Listed : String → List String → Type 0
Listed origin [] = ⊥
Listed origin (a ∷ allowed) = (a ≡ "*") ⊎ ((a ≡ origin) ⊎ Listed origin allowed)

any_origin_iff :
    (origin : String) (allowed : List String)
    → (any_origin origin allowed ≡ true) ↔ Listed origin allowed
unfolding any_origin
any_origin_iff origin [] = ground arith
any_origin_iff origin (a ∷ allowed) =
    ground (arith, eq_iff a "*", eq_iff a origin, any_origin_iff origin allowed)

-- An origin is allowed exactly if it is not empty, and it or a star is listed.
pub origin_allowed_iff :
    (origin : String) (allowed : List String)
    → (origin_allowed origin allowed ≡ true) ↔ ((origin ≢ "") × Listed origin allowed)
unfolding origin_allowed
origin_allowed_iff origin allowed = ground (arith, eq_iff origin "", any_origin_iff origin allowed)

cut_prefix-append : (p s : String) → cut_prefix p (p ++ s) ≡ some s
unfolding cut_prefix
cut_prefix-append String.[] s = rw nil-append refl
cut_prefix-append (String.◌∷◌ c p) s = rw cons-append (ground (arith, cut_prefix-append p s))

append-cut_prefix : (p s rest : String) → cut_prefix p s ≡ some rest → s ≡ p ++ rest
unfolding cut_prefix
append-cut_prefix String.[] s rest e = rw nil-append (ground arith)
append-cut_prefix (String.◌∷◌ c p) String.[] rest e = cc
append-cut_prefix (String.◌∷◌ c p) (String.◌∷◌ d s) rest e =
    elim (Bool-cases (nat_eq (code c) (code d))) [
      | inl same ↦
          let e' : cut_prefix p s ≡ some rest = rw same at e in
          let heads : c ≡ d = Char-path c d (ground arith) in
          rw cons-append (rw (heads, append-cut_prefix p s rest e'))
      | inr other ↦ ground arith
    ]

-- The test on the header passes exactly for `Bearer` and the key, as the test of the replay's own
-- guard does.
pub bears_key_iff : (key auth : String) → (bears_key key auth ≡ true) ↔ (auth ≡ "Bearer " ++ key)
unfolding bears_key
bears_key_iff key auth = (
  (λ h. elim (Option-cases (cut_prefix "Bearer " auth)) [
    | inl absent ↦ ground arith
    | inr (rest, found) ↦
        append-cut_prefix "Bearer " auth rest found
        ∙ ap (λ x. "Bearer " ++ x) ((eq_iff rest key).0 (rw (found, bears_key) at h))
  ]),
  (λ e. rw (e, bears_key, cut_prefix-append "Bearer " key) (eq_refl key)),
)

-- With a key set, a request passes the middleware exactly if its Authorization header is `Bearer` and the key, and is otherwise answered with status 401
-- and goes no further; with no key set, every request passes.
api_key_middleware_lem :
    {W : Type 0} (key : String) (next : Handler W) (r : Request) (resp : Response) (w : W)
    → api_key_middleware key next r resp w ≡ (
        if key == "" || get_header r "Authorization" == "Bearer " ++ key
        then next r resp w
        else (served (respond 401 invalid_key resp), w))
unfolding api_key_middleware
api_key_middleware_lem key next r resp w = ground (
  arith,
  bears_key_iff key (get_header r "Authorization"),
  eq_iff (get_header r "Authorization") ("Bearer " ++ key),
)
