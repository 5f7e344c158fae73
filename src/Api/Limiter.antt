-- ===== src/Api/Limiter.antt =====
-- The rate limiter of api/middleware.go: one token bucket for each key. Clock readings are
-- nanoseconds of the monotonic clock. The program builds one limiter, with rate 100 and burst 200;
-- here both are natural numbers. The mutex makes each call atomic.
pub mod Tokens
pub mod Admission
pub mod Keys
pub mod Credit
pub mod History
pub mod Requests
pub mod Validity
pub mod Isolation
use Prim.Native.String.{String}
use forge_task_queue.Common.{
  ℕ, ◌+◌, ◌-◌, ◌*◌, ◌/◌, Bool, true, false, Option, none, some, List, [], ◌∷◌, ltb, if◌then◌else◌,
}
use forge_task_queue.Common.Int.{ℤ, pos, negsuc, sub_ℕ, ◌+ℤ◌, ltb_ℤ, leb_ℤ}
use forge_task_queue.Common.Map.{lookup, insert}

pub record Visitor : Type 0 where
  pub tokens : ℤ
  pub last_seen : ℕ

pub record RateLimiter : Type 0 where
  pub visitors : List (String × Visitor)
  pub rate : ℕ
  pub burst : ℕ

-- `newRateLimiter`; the cleanup that it starts is `cleanup`, every three minutes.
unfoldable pub new_rate_limiter : ℕ → ℕ → RateLimiter
new_rate_limiter rate burst = record { visitors = []; rate = rate; burst = burst }

-- `int(elapsed.Seconds())`, exact while a visitor is idle for less than 2^23 seconds: beyond that
-- the float may round up.
abbrev pub seconds : ℕ → ℕ
seconds elapsed = elapsed / 1_000_000_000

-- The tokens of a visitor after a refill, at most `burst`.
abbrev pub refill : ℕ → ℕ → ℤ → ℕ → ℤ
refill rate burst tokens elapsed =
    let full = tokens +ℤ pos (seconds elapsed * rate) in
    if ltb_ℤ (pos burst) full then pos burst else full

abbrev pub pred_ℤ : ℤ → ℤ
pred_ℤ (pos n) = sub_ℕ n 1
pred_ℤ (negsuc n) = negsuc (n + 1)

-- One request of a known visitor, at the reading `since` of `time.Since` and `now` of `time.Now`.
unfoldable pub spend : ℕ → ℕ → Visitor → ℕ → ℕ → Bool × Visitor
spend rate burst v since now =
    let tokens = refill rate burst v.tokens (since - v.last_seen) in
    if leb_ℤ tokens (pos 0)
    then (false, record { tokens = tokens; last_seen = now })
    else (true, record { tokens = pred_ℤ tokens; last_seen = now })

unfoldable pub allow : RateLimiter → String → ℕ → ℕ → Bool × RateLimiter
allow rl ip since now = elim (lookup ip rl.visitors) [
  | none ↦
      let fresh : Visitor = record { tokens = sub_ℕ rl.burst 1; last_seen = now } in
      (true, record rl { visitors = insert ip fresh rl.visitors })
  | some v ↦
      let (allowed, v') = spend rl.rate rl.burst v since now in
      (allowed, record rl { visitors = insert ip v' rl.visitors })
]

-- The sweep over the visitors; `since ip` is the reading taken at the entry of `ip`. What has been
-- idle for more than five minutes is deleted.
pub sweep : (String → ℕ) → List (String × Visitor) → List (String × Visitor)
sweep since [] = []
sweep since ((ip, v) ∷ m) =
    if ltb 300_000_000_000 (since ip - v.last_seen) then sweep since m else (ip, v) ∷ sweep since m

unfoldable pub cleanup : (String → ℕ) → RateLimiter → RateLimiter
unfolding sweep
cleanup since rl = record rl { visitors = sweep since rl.visitors }
