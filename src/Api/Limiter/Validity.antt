-- ===== src/Api/Limiter/Validity.antt =====
-- The invariant of the limiter, over any history of requests and cleanups.
use Prim.Native.String.{String}
use forge_task_queue.Common.{ℕ, ◌≤◌, List, [], ◌∷◌}
use forge_task_queue.Api.Limiter.{RateLimiter, allow, cleanup, new_rate_limiter}
use forge_task_queue.Api.Limiter.Tokens.{IsValid, allow-IsValid, cleanup-IsValid}
use forge_task_queue.Api.Limiter.Keys.{UniqueKeys, sweep-UniqueKeys, allow-UniqueKeys}
use forge_task_queue.Api.Limiter.History.{Event, request, cleaned}

-- The limiter after a history.
unfoldable pub after : RateLimiter → List Event → RateLimiter
after rl [] = rl
after rl (request a ∷ rest) = after (allow rl a.ip a.since a.now).1 rest
after rl (cleaned since over ∷ rest) = after (cleanup since rl) rest

cleanup-UniqueKeys :
    (since : String → ℕ) (rl : RateLimiter)
    → UniqueKeys rl.visitors
    → UniqueKeys (cleanup since rl).visitors
unfolding cleanup
cleanup-UniqueKeys since rl h = sweep-UniqueKeys since rl.visitors h

after-keeps :
    (rl : RateLimiter) (history : List Event)
    → IsValid rl
    → UniqueKeys rl.visitors
    → IsValid (after rl history) × UniqueKeys (after rl history).visitors
unfolding after
after-keeps rl [] valid unique = (valid, unique)
after-keeps rl (request a ∷ rest) valid unique =
    after-keeps (allow rl a.ip a.since a.now).1 rest (allow-IsValid rl a.ip a.since a.now valid)
      (allow-UniqueKeys rl a.ip a.since a.now unique)
after-keeps rl (cleaned since over ∷ rest) valid unique =
    after-keeps (cleanup since rl) rest (cleanup-IsValid rl since valid)
      (cleanup-UniqueKeys since rl unique)

-- After any history of requests and cleanups, a limiter that was new and whose burst is at least 1
-- has between 0 and `burst` tokens in every bucket, and one bucket for a key at most.
after-IsValid :
    (rate burst : ℕ) (history : List Event)
    → 1 ≤ burst
    → IsValid (after (new_rate_limiter rate burst) history)
      × UniqueKeys (after (new_rate_limiter rate burst) history).visitors
unfolding new_rate_limiter
after-IsValid rate burst history h =
    after-keeps (new_rate_limiter rate burst) history (record { some_burst = h; buckets = tt }) tt
