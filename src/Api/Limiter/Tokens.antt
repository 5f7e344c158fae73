-- ===== src/Api/Limiter/Tokens.antt =====
-- The buckets of the rate limiter: what one request does to them, and the range of their tokens.
use Prim.Native.Nat.{min}
use Prim.Native.String.{String}
use mathlib.Core.Path.{subst}
use forge_task_queue.Common.{
  eq_refl, ◌∙◌, ℕ, ◌+◌, ◌-◌, ◌*◌, ◌≤◌, ◌≡◌, refl, Bool, true, none, some, List, [], ◌∷◌, arith,
  ◌==◌, if◌then◌else◌, Option-cases, Bool-cases, inl, inr,
}
use forge_task_queue.Common.Int.{pos, ◌+ℤ◌, sub_ℕ}
use forge_task_queue.Common.Map.{lookup, insert, lookup-insert}
use forge_task_queue.Api.Limiter.{Visitor, RateLimiter, seconds, spend, allow, sweep, cleanup}

-- Every bucket holds between 0 and `burst` tokens.
abbrev pub HasTokens : ℕ → Visitor → Type 0
HasTokens burst v = (n : ℕ) × (v.tokens ≡ pos n) × (n ≤ burst)

abbrev pub AllHaveTokens : ℕ → List (String × Visitor) → Type 0
AllHaveTokens burst [] = Unit
AllHaveTokens burst ((ip, v) ∷ m) = HasTokens burst v × AllHaveTokens burst m

pub record IsValid (rl : RateLimiter) : Type 0 where
  pub some_burst : 1 ≤ rl.burst
  pub buckets : AllHaveTokens rl.burst rl.visitors

-- The visitor that a request leaves behind, and whether it was allowed.
abbrev pub served : RateLimiter → String → ℕ → ℕ → Bool × Visitor
served rl ip since now = elim (lookup ip rl.visitors) [
  | none ↦ (true, record { tokens = sub_ℕ rl.burst 1; last_seen = now })
  | some v ↦ spend rl.rate rl.burst v since now
]

pub allow-served :
    (rl : RateLimiter) (ip : String) (since now : ℕ)
    → allow rl ip since now ≡ (
      (served rl ip since now).0,
      record rl { visitors = insert ip (served rl ip since now).1 rl.visitors },
    )
unfolding allow
allow-served rl ip since now = ground arith

-- A request changes the bucket of its own key alone.
pub lookup-allow :
    (rl : RateLimiter) (ip other : String) (since now : ℕ)
    → lookup other (allow rl ip since now).1.visitors
      ≡ (if ip == other then some (served rl ip since now).1 else lookup other rl.visitors)
lookup-allow rl ip other since now =
    rw allow-served (lookup-insert ip other (served rl ip since now).1 rl.visitors)

pub allow-fixed :
    (rl : RateLimiter) (ip : String) (since now : ℕ)
    → ((allow rl ip since now).1.rate ≡ rl.rate) × ((allow rl ip since now).1.burst ≡ rl.burst)
allow-fixed rl ip since now = rw allow-served (refl, refl)

-- A request of a known key spends from its bucket.
pub allow_known :
    (rl : RateLimiter) (key ip : String) (v : Visitor) (since now : ℕ)
    → key ≡ ip
    → lookup ip rl.visitors ≡ some v
    → ((allow rl key since now).0 ≡ (spend rl.rate rl.burst v since now).0)
      × (lookup ip (allow rl key since now).1.visitors
          ≡ some (spend rl.rate rl.burst v since now).1)
allow_known rl key ip v since now e found = (
  rw (allow-served, e) (rw (found, served)),
  lookup-allow rl key ip since now ∙ rw e (rw (eq_refl ip, found, served)),
)

-- Spending from a bucket: it takes a token exactly if it allows the request, after a refill that
-- adds at most `rate` tokens for each whole second.
pub spend_bucket :
    (rate burst n : ℕ) (v : Visitor) (since now : ℕ)
    → v.tokens ≡ pos n
    → n ≤ burst
    → (m : ℕ) × ((spend rate burst v since now).1.tokens ≡ pos m)
      × (m ≤ burst)
      × (m + (if (spend rate burst v since now).0 then 1 else 0)
          ≤ n + seconds (since - v.last_seen) * rate)
unfolding spend ◌+ℤ◌
spend_bucket rate burst n v since now e h = (
  min (n + seconds (since - v.last_seen) * rate) burst - 1,
  ground arith,
  ground arith,
  ground arith,
)

insert-AllHaveTokens :
    (burst : ℕ) (ip : String) (v : Visitor) (m : List (String × Visitor))
    → AllHaveTokens burst m
    → HasTokens burst v
    → AllHaveTokens burst (insert ip v m)
unfolding insert
insert-AllHaveTokens burst ip v [] h t = (t, tt)
insert-AllHaveTokens burst ip v ((k, u) ∷ m) h t = elim (Bool-cases (k == ip)) [
  | inl same ↦ rw same (t, h.1)
  | inr other ↦ rw other (h.0, insert-AllHaveTokens burst ip v m h.1 t)
]

lookup-HasTokens :
    (burst : ℕ) (ip : String) (v : Visitor) (m : List (String × Visitor))
    → AllHaveTokens burst m
    → lookup ip m ≡ some v
    → HasTokens burst v
unfolding lookup
lookup-HasTokens burst ip v [] h e = cc
lookup-HasTokens burst ip v ((k, u) ∷ m) h e = elim (Bool-cases (k == ip)) [
  | inl same ↦ let found : u ≡ v = ground arith in subst (HasTokens burst) found h.0
  | inr other ↦ lookup-HasTokens burst ip v m h.1 (ground arith)
]

served-HasTokens :
    (rl : RateLimiter) (ip : String) (since now : ℕ)
    → IsValid rl
    → HasTokens rl.burst (served rl ip since now).1
served-HasTokens rl ip since now h = elim (Option-cases (lookup ip rl.visitors)) [
  | inl new ↦ rw (new, served) (rl.burst - 1, ground (arith, h.some_burst), omega arith)
  | inr (v, old) ↦
      let (n, e, le) = lookup-HasTokens rl.burst ip v rl.visitors h.buckets old in
      let (m, e', le', _) = spend_bucket rl.rate rl.burst n v since now e le in
      rw (old, served) (m, e', le')
]

-- A request keeps the limiter valid, which means that the burst is at least 1 and every bucket
-- holds between 0 and `burst` tokens.
pub allow-IsValid :
    (rl : RateLimiter) (ip : String) (since now : ℕ)
    → IsValid rl
    → IsValid (allow rl ip since now).1
allow-IsValid rl ip since now h = rw allow-served (record {
  some_burst = h.some_burst;
  buckets =
      insert-AllHaveTokens rl.burst ip _ rl.visitors h.buckets (served-HasTokens rl ip since now h);
})

sweep-AllHaveTokens :
    (burst : ℕ) (since : String → ℕ) (m : List (String × Visitor))
    → AllHaveTokens burst m
    → AllHaveTokens burst (sweep since m)
unfolding sweep
sweep-AllHaveTokens burst since [] h = tt
sweep-AllHaveTokens burst since ((ip, v) ∷ m) h =
    ground (arith, sweep-AllHaveTokens burst since m h.1)

-- The cleanup keeps the limiter valid.
pub cleanup-IsValid :
    (rl : RateLimiter) (since : String → ℕ) → IsValid rl → IsValid (cleanup since rl)
unfolding cleanup
cleanup-IsValid rl since h = record {
  some_burst = h.some_burst;
  buckets = sweep-AllHaveTokens rl.burst since rl.visitors h.buckets;
}
