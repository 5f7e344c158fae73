-- ===== src/Api/Limiter/Keys.antt =====
-- The keys of the limiter's map in api/middleware.go: how often they occur, and which of them
-- `cleanup` deletes.
use Prim.Native.String.{String}
use forge_task_queue.Common.{
  ltb, ℕ, ◌-◌, ◌≡◌, refl, Bool, none, some, List, [], ◌∷◌, arith, ◌==◌, eq_iff, if◌then◌else◌,
  Bool-cases, inl, inr,
}
use forge_task_queue.Common.Map.{lookup, insert, lookup-insert}
use forge_task_queue.Api.Limiter.{Visitor, RateLimiter, allow, sweep}
use forge_task_queue.Api.Limiter.Tokens.{allow-served}

-- A map has an entry for a key once.
abbrev pub UniqueKeys : List (String × Visitor) → Type 0
UniqueKeys [] = Unit
UniqueKeys ((k, v) ∷ m) = (lookup k m ≡ none) × UniqueKeys m

pub insert-UniqueKeys :
    (ip : String) (v : Visitor) (m : List (String × Visitor))
    → UniqueKeys m
    → UniqueKeys (insert ip v m)
unfolding insert lookup
insert-UniqueKeys ip v [] h = (refl, tt)
insert-UniqueKeys ip v ((k, u) ∷ m) h = elim (Bool-cases (k == ip)) [
  | inl same ↦ let key : k ≡ ip = (eq_iff k ip).0 same in rw same (rw key at (h.0), h.1)
  | inr other ↦ rw other (
    ground (arith, lookup-insert ip k v m, eq_iff k ip, eq_iff ip k, h.0),
    insert-UniqueKeys ip v m h.1,
  )
]

-- Whether a cleanup deletes an entry.
abbrev pub is_stale : (String → ℕ) → String → Visitor → Bool
is_stale since ip v = ltb 300_000_000_000 (since ip - v.last_seen)

pub lookup-sweep-none :
    (since : String → ℕ) (ip : String) (m : List (String × Visitor))
    → lookup ip m ≡ none
    → lookup ip (sweep since m) ≡ none
unfolding sweep lookup
lookup-sweep-none since ip [] h = refl
lookup-sweep-none since ip ((k, u) ∷ m) h = ground (arith, lookup-sweep-none since ip m)

pub lookup-sweep :
    (since : String → ℕ) (ip : String) (v : Visitor) (m : List (String × Visitor))
    → UniqueKeys m
    → lookup ip m ≡ some v
    → lookup ip (sweep since m) ≡ (if is_stale since ip v then none else some v)
unfolding sweep lookup
lookup-sweep since ip v [] u h = cc
lookup-sweep since ip v ((k, w) ∷ m) u h =
    ground (arith, eq_iff k ip, lookup-sweep since ip v m u.1, lookup-sweep-none since k m u.0)

pub sweep-UniqueKeys :
    (since : String → ℕ) (m : List (String × Visitor)) → UniqueKeys m → UniqueKeys (sweep since m)
unfolding sweep
sweep-UniqueKeys since [] h = tt
sweep-UniqueKeys since ((k, v) ∷ m) h =
    ground (arith, lookup-sweep-none since k m h.0, sweep-UniqueKeys since m h.1)

pub allow-UniqueKeys :
    (rl : RateLimiter) (ip : String) (since now : ℕ)
    → UniqueKeys rl.visitors
    → UniqueKeys (allow rl ip since now).1.visitors
allow-UniqueKeys rl ip since now h = rw allow-served (insert-UniqueKeys ip _ rl.visitors h)
