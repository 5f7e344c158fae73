-- ===== src/Api/Limiter/Admission.antt =====
-- How many requests the limiter admits over a history of requests.
use Prim.Native.Nat.{min}
use Prim.Native.String.{String}
use native.Mathlib.Nat.{add-mul, mul-le-mul_right}
use forge_task_queue.Common.{
  ltb, zero, ◌∙◌, ℕ, suc, ◌+◌, ◌-◌, ◌*◌, ◌≤◌, ◌<◌, ◌≡◌, refl, Bool, true, ◌&&◌, none, some, List,
  [], ◌∷◌, arith, ◌==◌, eq_refl, if◌then◌else◌,
}
use forge_task_queue.Common.Int.{pos, ◌+ℤ◌, sub_ℕ}
use forge_task_queue.Common.Map.{lookup}
use forge_task_queue.Api.Limiter.{Visitor, RateLimiter, seconds, spend, allow, new_rate_limiter}
use forge_task_queue.Api.Limiter.Tokens.{
  served, allow-served, lookup-allow, allow-fixed, allow_known,
}

-- A request: its key, and the clock readings made for it under the mutex.
pub record Arrival : Type 0 where
  pub ip : String
  pub since : ℕ
  pub now : ℕ

-- The number of requests of `ip` that are admitted in a history.
unfoldable pub admitted : String → RateLimiter → List Arrival → ℕ
admitted ip rl [] = 0
admitted ip rl (a ∷ rest) =
    let (allowed, rl') = allow rl a.ip a.since a.now in
    (if allowed && a.ip == ip then 1 else 0) + admitted ip rl' rest

-- The clock does not run backwards, from `start` to `end`.
abbrev pub InOrder : ℕ → ℕ → List Arrival → Type 0
InOrder start end [] = start ≤ end
InOrder start end (a ∷ rest) = (start ≤ a.since) × (a.since ≤ a.now) × InOrder a.now end rest

pub scale : (x y z r : ℕ) → x + y ≤ z → x * r + y * r ≤ z * r
scale x y z r h = rw (← add-mul) (mul-le-mul_right r h)

-- Whole seconds of consecutive spans add up to no more than those of the whole.
pub seconds_add :
    (rate a b c : ℕ) → a + b ≤ c → seconds a * rate + seconds b * rate ≤ seconds c * rate
seconds_add rate a b c h = scale (seconds a) (seconds b) (seconds c) rate (omega arith)

pub spend-last_seen :
    (rate burst : ℕ) (v : Visitor) (since now : ℕ)
    → (spend rate burst v since now).1.last_seen ≡ now
unfolding spend
spend-last_seen rate burst v since now = ground arith

pub step_bound :
    (allowed : Bool) (m n later first rest whole : ℕ)
    → m + (if allowed then 1 else 0) ≤ n + first
    → later ≤ m + rest
    → first + rest ≤ whole
    → (if allowed && true then 1 else 0) + later ≤ n + whole
step_bound allowed m n later first rest whole p q r = ground arith

-- The first request of a key is admitted, and leaves all tokens but one.
pub allow_new :
    (rl : RateLimiter) (key ip : String) (since now : ℕ)
    → key ≡ ip
    → 1 ≤ rl.burst
    → lookup ip rl.visitors ≡ none
    → ((allow rl key since now).0 ≡ true)
      × (lookup ip (allow rl key since now).1.visitors
          ≡ some (record { tokens = pos (rl.burst - 1); last_seen = now }))
allow_new rl key ip since now e one new =
    let first : sub_ℕ rl.burst 1 ≡ pos (rl.burst - 1) = ground arith in
    (
      rw (allow-served, e) (rw (new, served)),
      lookup-allow rl key ip since now ∙ rw e (rw (eq_refl ip, new, served, first)),
    )

-- Requests of one key that never pause for a second.
abbrev pub IsBusy : String → ℕ → List Arrival → Type 0
IsBusy ip last [] = Unit
IsBusy ip last (a ∷ rest) = (a.ip ≡ ip) × (a.since - last < 1_000_000_000) × IsBusy ip a.now rest

-- `n` requests of a key at one moment.
abbrev pub at_once : ℕ → String → ℕ → List Arrival
at_once zero ip t = []
at_once (suc n) ip t = record { ip = ip; since = t; now = t } ∷ at_once n ip t

spend_at_once :
    (rate burst k t : ℕ)
    → k ≤ burst
    → spend rate burst (record { tokens = pos k; last_seen = t }) t t
      ≡ (ltb 0 k, record { tokens = pos (k - 1); last_seen = t })
unfolding spend ◌+ℤ◌
spend_at_once rate burst k t h =
    let idle : seconds (t - t) ≡ 0 = omega arith in
    let no_refill : seconds (t - t) * rate ≡ 0 = rw idle (omega arith) in ground (arith, no_refill)

known_at_once :
    (ip : String) (rl : RateLimiter) (k t n : ℕ)
    → lookup ip rl.visitors ≡ some (record { tokens = pos k; last_seen = t })
    → k ≤ rl.burst
    → admitted ip rl (at_once n ip t) ≡ min n k
unfolding admitted
known_at_once ip rl k t zero found le = omega arith
known_at_once ip rl k t (suc n) found le =
    let (rate, burst) = allow-fixed rl ip t t in
    let (verdict, found') = allow_known rl ip ip _ t t refl found in
    let spent = spend_at_once rl.rate rl.burst k t le in
    let rest = known_at_once ip (allow rl ip t t).1 (k - 1) t n (found' ∙ rw spent) (omega arith) in
    ground (arith, verdict, spent, rest, eq_refl ip)

-- Of requests that a new key makes at one moment, the first `burst` are admitted, and no more, if
-- the burst is at least one.
pub admitted-at_once :
    (ip : String) (rate burst t n : ℕ)
    → 1 ≤ burst
    → admitted ip (new_rate_limiter rate burst) (at_once n ip t) ≡ min n burst
unfolding new_rate_limiter lookup admitted
admitted-at_once ip rate burst t zero one = omega arith
admitted-at_once ip rate burst t (suc n) one =
    let rl : RateLimiter = new_rate_limiter rate burst in
    let (verdict, found) = allow_new rl ip ip t t refl one refl in
    let (_, same_burst) = allow-fixed rl ip t t in
    let rest =
      known_at_once ip (allow rl ip t t).1 (burst - 1) t n found (omega (arith, same_burst)) in
    ground (arith, verdict, rest, eq_refl ip)
