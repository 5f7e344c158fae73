-- ===== src/Api/Limiter/Requests.antt =====
-- Histories of requests alone, in which no cleanup takes place.
use Prim.Native.String.{String}
use forge_task_queue.Common.{ℕ, ◌+◌, ◌-◌, ◌*◌, ◌≤◌, ◌≡◌, refl, List, [], ◌∷◌}
use forge_task_queue.Api.Limiter.{RateLimiter, seconds, allow, new_rate_limiter}
use forge_task_queue.Api.Limiter.Admission.{Arrival, admitted, InOrder}
use forge_task_queue.Api.Limiter.History.{Event, request, granted, RunsOn, Cleans, granted-le}

-- The history of requests alone.
requests : List Arrival → List Event
requests [] = []
requests (a ∷ rest) = request a ∷ requests rest

admitted-eq-granted :
    (ip : String) (rl : RateLimiter) (history : List Arrival)
    → admitted ip rl history ≡ granted ip rl (requests history)
unfolding admitted granted requests
admitted-eq-granted ip rl [] = refl
admitted-eq-granted ip rl (a ∷ rest) =
    rw (admitted-eq-granted ip (allow rl a.ip a.since a.now).1 rest) refl

requests-RunsOn :
    (start end : ℕ) (history : List Arrival)
    → InOrder start end history
    → RunsOn start end (requests history)
unfolding requests
requests-RunsOn start end [] h = h
requests-RunsOn start end (a ∷ rest) h = (h.0, h.1, requests-RunsOn a.now end rest h.2)

not-Cleans-requests : (history : List Arrival) → ¬ Cleans (requests history)
unfolding requests
not-Cleans-requests [] h = h
not-Cleans-requests (a ∷ rest) h = not-Cleans-requests rest h

-- From a new limiter with a burst of at least one, over any history of requests under a clock that
-- does not run backwards, a key is granted at most `burst` requests and `rate` more for each whole
-- second of the history, whatever requests other keys make, if no cleanup runs in between.
pub admitted-le :
    (ip : String) (rate burst start end : ℕ) (history : List Arrival)
    → 1 ≤ burst
    → InOrder start end history
    → admitted ip (new_rate_limiter rate burst) history ≤ burst + seconds (end - start) * rate
admitted-le ip rate burst start end history one h = rw admitted-eq-granted (
    granted-le ip rate burst start end (requests history) one
      (λ c. absurd (not-Cleans-requests history c)) (requests-RunsOn start end history h))
