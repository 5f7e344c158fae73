-- ===== src/Api/Limiter/Credit.antt =====
-- What a key may still be granted, and how a request and a cleanup change it.
use Prim.Native.String.{String}
use native.Mathlib.Nat.{mul-le-mul_right}
use forge_task_queue.Common.{
  ℕ, ◌+◌, ◌-◌, ◌*◌, ◌≤◌, ◌<◌, ◌≡◌, refl, ◌∙◌, ◌⊎◌, true, false, none, some, arith, ◌==◌,
  if◌then◌else◌, Bool-cases, inl, inr,
}
use forge_task_queue.Common.Int.{pos}
use forge_task_queue.Common.Map.{lookup}
use forge_task_queue.Api.Limiter.{Visitor, RateLimiter, seconds, allow, cleanup}
use forge_task_queue.Api.Limiter.Tokens.{lookup-allow, spend_bucket, allow-fixed, allow_known}
use forge_task_queue.Api.Limiter.Keys.{
  UniqueKeys, is_stale, lookup-sweep-none, lookup-sweep, sweep-UniqueKeys, allow-UniqueKeys,
}
use forge_task_queue.Api.Limiter.Admission.{Arrival, spend-last_seen, allow_new}

pub seconds_mono : (rate a b : ℕ) → a ≤ b → seconds a * rate ≤ seconds b * rate
seconds_mono rate a b h = mul-le-mul_right rate (omega arith)

-- Five minutes' worth of tokens fill a bucket.
five_minutes :
    (rate burst idle : ℕ)
    → burst ≤ 300 * rate
    → 300_000_000_000 < idle
    → burst ≤ seconds idle * rate
five_minutes rate burst idle h late = omega (arith, mul-le-mul_right rate (secs idle late))
  where
    secs : (idle : ℕ) → 300_000_000_000 < idle → 300 ≤ seconds idle
    secs idle late = omega arith

-- What the key may still be granted: its bucket held `n` tokens at `last`, and a bucket that was
-- deleted since would be full by the time `t`.
pub record Credit (ip : String) (rl : RateLimiter) (n last t : ℕ) : Type 0 where
  pub some_burst : 1 ≤ rl.burst
  pub unique : UniqueKeys rl.visitors
  pub within : n ≤ rl.burst
  pub past : last ≤ t
  pub bucket :
      ((v : Visitor) × (lookup ip rl.visitors ≡ some v) × (v.tokens ≡ pos n) × (v.last_seen ≡ last))
      ⊎ ((lookup ip rl.visitors ≡ none) × (rl.burst ≤ n + seconds (t - last) * rl.rate))

pub other-Credit :
    (ip : String) (rl : RateLimiter) (n last t : ℕ) (a : Arrival)
    → Credit ip rl n last t
    → (a.ip == ip) ≡ false
    → t ≤ a.now
    → Credit ip (allow rl a.ip a.since a.now).1 n last a.now
other-Credit ip rl n last t a c other later =
    let (rate, burst) = allow-fixed rl a.ip a.since a.now in
    let kept = rw other at (lookup-allow rl a.ip ip a.since a.now) in
    record {
      some_burst = omega (arith, burst, c.some_burst);
      unique = allow-UniqueKeys rl a.ip a.since a.now c.unique;
      within = omega (arith, burst, c.within);
      past = omega (arith, c.past);
      bucket = elim c.bucket [
        | inl (v, found, e, l) ↦ inl (v, kept ∙ found, e, l)
        | inr (gone, full) ↦ inr (
          kept ∙ gone,
          rw (rate, burst)
              (omega (arith, full, seconds_mono rl.rate (t - last) (a.now - last) (omega arith))),
        )
      ];
    }

pub cleaned-Credit :
    (ip : String) (rl : RateLimiter) (n last t over : ℕ) (since : String → ℕ)
    → Credit ip rl n last t
    → rl.burst ≤ 300 * rl.rate
    → t ≤ since ip
    → since ip ≤ over
    → Credit ip (cleanup since rl) n last over
unfolding cleanup
cleaned-Credit ip rl n last t over since c fills from to = record {
  some_burst = c.some_burst;
  unique = sweep-UniqueKeys since rl.visitors c.unique;
  within = c.within;
  past = omega (arith, c.past);
  bucket = elim c.bucket [
    | inl (v, found, e, l) ↦ elim (Bool-cases (is_stale since ip v)) [
      | inl stale ↦ inr (
        lookup-sweep since ip v rl.visitors c.unique found ∙ rw stale refl,
        omega (arith, five_minutes rl.rate rl.burst (over - last) fills (ground arith)),
      )
      | inr fresh ↦
          inl (v, lookup-sweep since ip v rl.visitors c.unique found ∙ rw fresh refl, e, l)
    ]
    | inr (gone, full) ↦ inr (
      lookup-sweep-none since ip rl.visitors gone,
      omega (arith, full, seconds_mono rl.rate (t - last) (over - last) (omega arith)),
    )
  ];
}

-- A key that has been granted no request, or whose bucket was deleted, is granted the next one.
pub granted_new :
    (ip : String) (rl : RateLimiter) (n last t : ℕ) (a : Arrival)
    → Credit ip rl n last t
    → a.ip ≡ ip
    → lookup ip rl.visitors ≡ none
    → ((allow rl a.ip a.since a.now).0 ≡ true)
      × Credit ip (allow rl a.ip a.since a.now).1 (rl.burst - 1) a.now a.now
granted_new ip rl n last t a c key gone =
    let (rate, burst) = allow-fixed rl a.ip a.since a.now in
    let (verdict, found) = allow_new rl a.ip ip a.since a.now key c.some_burst gone in
    (
      verdict,
      record {
        some_burst = omega (arith, burst, c.some_burst);
        unique = allow-UniqueKeys rl a.ip a.since a.now c.unique;
        within = omega (arith, burst);
        past = omega arith;
        bucket = inl (_, found, refl, refl);
      },
    )

-- A key with a bucket spends from it.
pub granted_known :
    (ip : String) (rl : RateLimiter) (n last t : ℕ) (a : Arrival) (v : Visitor)
    → Credit ip rl n last t
    → a.ip ≡ ip
    → lookup ip rl.visitors ≡ some v
    → v.tokens ≡ pos n
    → v.last_seen ≡ last
    → (m : ℕ) × Credit ip (allow rl a.ip a.since a.now).1 m a.now a.now
      × (m + (if (allow rl a.ip a.since a.now).0 then 1 else 0)
          ≤ n + seconds (a.since - last) * rl.rate)
granted_known ip rl n last t a v c key found e l =
    let (rate, burst) = allow-fixed rl a.ip a.since a.now in
    let (verdict, found') = allow_known rl a.ip ip v a.since a.now key found in
    let (m, e', le', paid) = spend_bucket rl.rate rl.burst n v a.since a.now e c.within in
    (
      m,
      record {
        some_burst = omega (arith, burst, c.some_burst);
        unique = allow-UniqueKeys rl a.ip a.since a.now c.unique;
        within = omega (arith, burst, le');
        past = omega arith;
        bucket = inl (_, found', e', spend-last_seen rl.rate rl.burst v a.since a.now);
      },
      rw (verdict, ← l) paid,
    )
