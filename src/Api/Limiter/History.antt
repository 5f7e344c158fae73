-- ===== src/Api/Limiter/History.antt =====
-- How many requests the limiter admits over a history of requests and cleanups.
use Prim.Native.String.{String}
use forge_task_queue.Common.{
  ℕ, ◌+◌, ◌-◌, ◌*◌, ◌≤◌, ◌≡◌, refl, ◌&&◌, List, [], ◌∷◌, arith, ◌==◌, eq_iff, if◌then◌else◌,
  Bool-cases, inl, inr,
}
use forge_task_queue.Common.Map.{lookup}
use forge_task_queue.Api.Limiter.{RateLimiter, seconds, allow, cleanup, new_rate_limiter}
use forge_task_queue.Api.Limiter.Tokens.{allow-fixed}
use forge_task_queue.Api.Limiter.Credit.{
  Credit, other-Credit, cleaned-Credit, granted_new, granted_known,
}
use forge_task_queue.Api.Limiter.Admission.{Arrival, seconds_add, step_bound}

-- A request; or a cleanup, with the clock's reading at each entry and at its end.
pub data Event : Type 0 where
  request : Arrival → Event
  cleaned : (String → ℕ) → ℕ → Event

-- The number of requests of `ip` that are granted in a history.
unfoldable pub granted : String → RateLimiter → List Event → ℕ
granted ip rl [] = 0
granted ip rl (request a ∷ rest) =
    let (allowed, rl') = allow rl a.ip a.since a.now in
    (if allowed && a.ip == ip then 1 else 0) + granted ip rl' rest
granted ip rl (cleaned since end ∷ rest) = granted ip (cleanup since rl) rest

-- The clock does not run backwards, from `start` to `end`.
abbrev pub RunsOn : ℕ → ℕ → List Event → Type 0
RunsOn start end [] = start ≤ end
RunsOn start end (request a ∷ rest) = (start ≤ a.since) × (a.since ≤ a.now) × RunsOn a.now end rest
RunsOn start end (cleaned since over ∷ rest) =
    ((ip : String) → (start ≤ since ip) × (since ip ≤ over)) × RunsOn over end rest

RunsOn-le : (start end : ℕ) (rest : List Event) → RunsOn start end rest → start ≤ end
RunsOn-le start end [] h = h
RunsOn-le start end (request a ∷ rest) h = omega (arith, RunsOn-le a.now end rest h.2)
RunsOn-le start end (cleaned since over ∷ rest) h =
    omega (arith, RunsOn-le over end rest h.1, h.0 "")

-- A history in which some cleanup takes place.
abbrev pub Cleans : List Event → Type 0
Cleans [] = ⊥
Cleans (request a ∷ rest) = Cleans rest
Cleans (cleaned since over ∷ rest) = Unit

-- The credit pays for every request that is granted.
granted_bound :
    (ip : String) (rl : RateLimiter) (n last t end : ℕ) (rest : List Event)
    → Credit ip rl n last t
    → (Cleans rest → rl.burst ≤ 300 * rl.rate)
    → RunsOn t end rest
    → granted ip rl rest ≤ n + seconds (end - last) * rl.rate
unfolding granted cleanup
granted_bound ip rl n last t end [] c fills h = omega arith
granted_bound ip rl n last t end (cleaned since over ∷ rest) c fills h =
    granted_bound ip (cleanup since rl) n last over end rest
      (cleaned-Credit ip rl n last t over since c (fills tt) (h.0 ip).0 (h.0 ip).1)
      (λ more. fills tt) h.1
granted_bound ip rl n last t end (request a ∷ rest) c fills h = elim (Bool-cases (a.ip == ip)) [
  | inr other ↦
      let (rate, burst) = allow-fixed rl a.ip a.since a.now in
      let bound =
        granted_bound ip (allow rl a.ip a.since a.now).1 n last a.now end rest
          (other-Credit ip rl n last t a c other (omega arith)) (rw (rate, burst) fills) h.2 in
      ground (arith, other, bound, rate)
  | inl same ↦
      let key : a.ip ≡ ip = (eq_iff a.ip ip).0 same in
      let (rate, burst) = allow-fixed rl a.ip a.since a.now in
      elim c.bucket [
        | inr (gone, full) ↦
            let (verdict, next) = granted_new ip rl n last t a c key gone in
            let bound =
              granted_bound ip (allow rl a.ip a.since a.now).1 (rl.burst - 1) a.now a.now end rest
                next (rw (rate, burst) fills) h.2 in
            let spans =
              seconds_add rl.rate (t - last) (end - a.now) (end - last)
                (omega (arith, c.past, RunsOn-le a.now end rest h.2)) in
            rw (same, verdict) (omega (arith, rw rate at bound, full, spans, c.some_burst))
        | inl (v, found, e, l) ↦
            let (m, next, paid) = granted_known ip rl n last t a v c key found e l in
            let bound =
              granted_bound ip (allow rl a.ip a.since a.now).1 m a.now a.now end rest next
                (rw (rate, burst) fills) h.2 in
            let spans =
              seconds_add rl.rate (a.since - last) (end - a.now) (end - last)
                (omega (arith, c.past, RunsOn-le a.now end rest h.2)) in
            rw same (step_bound _ _ _ _ _ _ _ paid (rw rate at bound) spans)
      ]
]

-- From a new limiter with a burst of at least one and, where the history contains a cleanup, of at
-- most five minutes' worth of the rate, over any history of requests and cleanups under a clock
-- that does not run backwards, a key is granted at most `burst` requests and `rate` more for each
-- whole second of the history, whatever requests other keys make and whenever the cleanups come.
pub granted-le :
    (ip : String) (rate burst start end : ℕ) (history : List Event)
    → 1 ≤ burst
    → (Cleans history → burst ≤ 300 * rate)
    → RunsOn start end history
    → granted ip (new_rate_limiter rate burst) history ≤ burst + seconds (end - start) * rate
unfolding new_rate_limiter lookup
granted-le ip rate burst start end history one fills h =
    granted_bound ip (new_rate_limiter rate burst) burst start start end history
      (record {
        some_burst = one;
        unique = tt;
        within = omega arith;
        past = omega arith;
        bucket = inr (refl, omega arith);
      })
      fills h
