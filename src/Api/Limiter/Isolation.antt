-- ===== src/Api/Limiter/Isolation.antt =====
-- The limiter of api/middleware.go as one bucket for each key, apart from the map that holds them.
use Prim.Native.String.{String}
use forge_task_queue.Common.{
  ltb, ℕ, ◌-◌, ◌≡◌, refl, sym, ap, ◌∙◌, Bool, true, false, Option, none, some, List, [], ◌∷◌, ◌==◌,
  eq_iff, if◌then◌else◌, Bool-cases, inl, inr,
}
use forge_task_queue.Common.Int.{sub_ℕ}
use forge_task_queue.Common.Map.{lookup}
use forge_task_queue.Api.Limiter.{Visitor, RateLimiter, spend, allow, cleanup, new_rate_limiter}
use forge_task_queue.Api.Limiter.Tokens.{served, allow-served, lookup-allow, allow-fixed}
use forge_task_queue.Api.Limiter.Keys.{
  UniqueKeys, lookup-sweep, lookup-sweep-none, sweep-UniqueKeys, allow-UniqueKeys,
}
use forge_task_queue.Api.Limiter.Admission.{Arrival}
use forge_task_queue.Api.Limiter.History.{Event, request, cleaned}

-- The verdicts that a key gets in a history, in order.
unfoldable pub verdicts : String → RateLimiter → List Event → List Bool
verdicts ip rl [] = []
verdicts ip rl (request a ∷ rest) =
    let (allowed, rl') = allow rl a.ip a.since a.now in
    let later = verdicts ip rl' rest in if a.ip == ip then allowed ∷ later else later
verdicts ip rl (cleaned since over ∷ rest) = verdicts ip (cleanup since rl) rest

-- What one bucket sees: a request of its key, at the readings of the clock, or a cleanup.
pub data Visit : Type 0 where
  asked : ℕ → ℕ → Visit
  swept : ℕ → Visit

-- A history as the bucket of one key sees it: the requests of other keys are left out.
abbrev pub own : String → List Event → List Visit
own ip [] = []
own ip (request a ∷ rest) = if a.ip == ip then asked a.since a.now ∷ own ip rest else own ip rest
own ip (cleaned since over ∷ rest) = swept (since ip) ∷ own ip rest

-- A bucket alone, `none` before the first request and after a cleanup that finds it idle for more
-- than five minutes.
abbrev pub bucket_verdicts : ℕ → ℕ → Option Visitor → List Visit → List Bool
bucket_verdicts rate burst b [] = []
bucket_verdicts rate burst none (asked since now ∷ rest) =
    true
    ∷ bucket_verdicts rate burst (some (record { tokens = sub_ℕ burst 1; last_seen = now })) rest
bucket_verdicts rate burst (some v) (asked since now ∷ rest) =
    let (allowed, v') = spend rate burst v since now in
    allowed ∷ bucket_verdicts rate burst (some v') rest
bucket_verdicts rate burst none (swept since ∷ rest) = bucket_verdicts rate burst none rest
bucket_verdicts rate burst (some v) (swept since ∷ rest) =
    bucket_verdicts rate burst (if ltb 300_000_000_000 (since - v.last_seen) then none else some v)
      rest

lookup-cleanup :
    (ip : String) (rl : RateLimiter) (since : String → ℕ) (b : Option Visitor) (rest : List Visit)
    → UniqueKeys rl.visitors
    → lookup ip rl.visitors ≡ b
    → bucket_verdicts rl.rate rl.burst (lookup ip (cleanup since rl).visitors) rest
      ≡ bucket_verdicts rl.rate rl.burst b (swept (since ip) ∷ rest)
unfolding cleanup
lookup-cleanup ip rl since none rest u e = rw (lookup-sweep-none since ip rl.visitors e) refl
lookup-cleanup ip rl since (some v) rest u e = rw (lookup-sweep since ip v rl.visitors u e) refl

bucket_asked :
    (rl : RateLimiter) (ip : String) (since now : ℕ) (b : Option Visitor) (rest : List Visit)
    → lookup ip rl.visitors ≡ b
    → bucket_verdicts rl.rate rl.burst b (asked since now ∷ rest)
      ≡ (served rl ip since now).0
        ∷ bucket_verdicts rl.rate rl.burst (some (served rl ip since now).1) rest
bucket_asked rl ip since now none rest e = rw (e, served) refl
bucket_asked rl ip since now (some v) rest e = rw (e, served) refl

-- One request: the bucket of its own key is spent from, and no other.
asked_other :
    (ip : String) (rl : RateLimiter) (a : Arrival) (rest : List Visit)
    → (a.ip == ip) ≡ false
    → bucket_verdicts
        (allow rl a.ip a.since a.now).1.rate
        (allow rl a.ip a.since a.now).1.burst
        (lookup ip (allow rl a.ip a.since a.now).1.visitors)
        rest
      ≡ bucket_verdicts rl.rate rl.burst (lookup ip rl.visitors) rest
asked_other ip rl a rest other =
    let (rate, burst) = allow-fixed rl a.ip a.since a.now in
    rw (rate, burst, lookup-allow, other) refl

asked_own :
    (ip : String) (rl : RateLimiter) (a : Arrival) (rest : List Visit)
    → (a.ip == ip) ≡ true
    → (allow rl a.ip a.since a.now).0
        ∷ bucket_verdicts
            (allow rl a.ip a.since a.now).1.rate
            (allow rl a.ip a.since a.now).1.burst
            (lookup ip (allow rl a.ip a.since a.now).1.visitors)
            rest
      ≡ bucket_verdicts rl.rate rl.burst (lookup ip rl.visitors) (asked a.since a.now ∷ rest)
asked_own ip rl a rest same =
    let key : a.ip ≡ ip = (eq_iff a.ip ip).0 same in
    let (rate, burst) = allow-fixed rl a.ip a.since a.now in
    rw (rate, burst, lookup-allow, same, allow-served, key)
      (sym (bucket_asked rl ip a.since a.now _ rest refl))

verdicts-bucket :
    (ip : String) (rl : RateLimiter) (history : List Event)
    → UniqueKeys rl.visitors
    → verdicts ip rl history
      ≡ bucket_verdicts rl.rate rl.burst (lookup ip rl.visitors) (own ip history)
unfolding verdicts cleanup
verdicts-bucket ip rl [] u = refl
verdicts-bucket ip rl (cleaned since over ∷ rest) u =
    verdicts-bucket ip (cleanup since rl) rest (sweep-UniqueKeys since rl.visitors u)
    ∙ lookup-cleanup ip rl since _ (own ip rest) u refl
verdicts-bucket ip rl (request a ∷ rest) u =
    let ih =
      verdicts-bucket ip (allow rl a.ip a.since a.now).1 rest
        (allow-UniqueKeys rl a.ip a.since a.now u) in
    elim (Bool-cases (a.ip == ip)) [
      | inr other ↦ rw other (ih ∙ asked_other ip rl a (own ip rest) other)
      | inl same ↦ rw same (
          ap (λ vs. (allow rl a.ip a.since a.now).0 ∷ vs) ih ∙ asked_own ip rl a (own ip rest) same)
    ]

-- Over any history of requests and cleanups a new limiter gives each key the verdicts that one
-- bucket would give, which sees only the requests of that key and the cleanups: no key's requests
-- change another key's verdicts.
pub verdicts-eq-bucket :
    (ip : String) (rate burst : ℕ) (history : List Event)
    → verdicts ip (new_rate_limiter rate burst) history
      ≡ bucket_verdicts rate burst none (own ip history)
unfolding new_rate_limiter lookup
verdicts-eq-bucket ip rate burst history =
    verdicts-bucket ip (new_rate_limiter rate burst) history tt
