-- ===== src/Config/Numbers.antt =====
-- The numbers that are read from the environment.
use Prim.Native.Char.{code}
use Prim.Native.String.{String, ◌++◌}
use text.Mathlib.TextLemmas.{append-eq-nil_iff, nil-append, cons-append}
use native.Mathlib.Numerals.{add-one}
use forge_task_queue.Common.{
  ℕ, zero, suc, ◌+◌, ◌-◌, ◌*◌, ◌/◌, ◌%◌, ◌≤◌, ◌<◌, ◌≡◌, ◌≢◌, refl, ap, ◌∙◌, some, arith, ltb,
  Bool-cases, Option-cases, inl, inr,
}
use forge_task_queue.Common.Int.{ℤ, pos, max_int, IsInt64}
use forge_task_queue.Common.Text.{digit, decimal, decimal_from}
use forge_task_queue.Config.Strconv.{atoi, digits_value, is_digit}
use forge_task_queue.Config.{Host, env_int_or_default}

digit-value : (acc d : ℕ) → d < 10 → digits_value acc (digit d) ≡ some (acc * 10 + d)
unfolding digits_value
digit-value acc zero h = ground arith
digit-value acc (suc zero) h = ground arith
digit-value acc (suc (suc zero)) h = ground arith
digit-value acc (suc (suc (suc zero))) h = ground arith
digit-value acc (suc (suc (suc (suc zero)))) h = ground arith
digit-value acc (suc (suc (suc (suc (suc zero))))) h = ground arith
digit-value acc (suc (suc (suc (suc (suc (suc zero)))))) h = ground arith
digit-value acc (suc (suc (suc (suc (suc (suc (suc zero))))))) h = ground arith
digit-value acc (suc (suc (suc (suc (suc (suc (suc (suc zero)))))))) h = ground arith
digit-value acc (suc (suc (suc (suc (suc (suc (suc (suc (suc zero))))))))) h = ground arith
digit-value acc (suc (suc (suc (suc (suc (suc (suc (suc (suc (suc n)))))))))) h =
    absurd (omega arith)

-- One more digit at the end of a text of digits.
digits_value-digit :
    (s : String) (acc v d : ℕ)
    → d < 10
    → digits_value acc s ≡ some v
    → digits_value acc (s ++ digit d) ≡ some (v * 10 + d)
unfolding digits_value
digits_value-digit String.[] acc v d h e =
    let same : acc ≡ v = ground arith in rw (nil-append, ← same) (digit-value acc d h)
digits_value-digit (String.◌∷◌ c s) acc v d h e = elim (Bool-cases (is_digit (code c))) [
  | inl good ↦
      rw cons-append
        (rw good (digits_value-digit s (acc * 10 + (code c - 48)) v d h (rw good at e)))
  | inr bad ↦ ground arith
]

-- `natural` of the decimal digits of a number is the number.
decimal_from-value : (fuel n : ℕ) → n < fuel → digits_value 0 (decimal_from fuel n) ≡ some n
unfolding decimal_from digits_value
decimal_from-value zero n h = elim h [ ]
decimal_from-value (suc fuel) n h = elim (Bool-cases (ltb n 10)) [
  | inl small ↦ rw small (digit-value 0 n (ground arith) ∙ ground arith)
  | inr large ↦
      let whole : n / 10 * 10 + n % 10 ≡ n = omega arith in
      rw large (
        digits_value-digit (decimal_from fuel (n / 10)) 0 (n / 10) (n % 10) (omega arith)
          (decimal_from-value fuel (n / 10) (ground arith))
        ∙ ap some whole)
]

digit-ne-empty : (d : ℕ) → d < 10 → digit d ≢ ""
unfolding digits_value
digit-ne-empty d h e =
    let value : digits_value 1 "" ≡ some (1 * 10 + d) = rw e at (digit-value 1 d h) in ground arith

decimal_from-ne-empty : (fuel n : ℕ) → decimal_from (suc fuel) n ≢ ""
unfolding decimal_from
decimal_from-ne-empty fuel n e = elim (Bool-cases (ltb n 10)) [
  | inl small ↦ digit-ne-empty n (ground arith) (rw small at e)
  | inr large ↦
      digit-ne-empty (n % 10) (omega arith)
        ((append-eq-nil_iff {p = decimal_from fuel (n / 10)}).0 (rw large at e)).1
]

atoi-natural :
    (s : String) (n : ℕ) → s ≢ "" → digits_value 0 s ≡ some n → n ≤ max_int → atoi s ≡ some (pos n)
unfolding atoi digits_value
atoi-natural String.[] n h e le = absurd (h refl)
atoi-natural (String.◌∷◌ c s) n h e le = ground arith

-- What `%d` prints of a number of 63 bits is read back as that number.
pub atoi-decimal : (n : ℕ) → n ≤ max_int → atoi (decimal n) ≡ some (pos n)
unfolding decimal
atoi-decimal n h = rw add-one (
    atoi-natural (decimal_from (suc n) n) n (decimal_from-ne-empty n n)
      (decimal_from-value (suc n) n (omega arith)) h)

atoi-IsInt64 : (s : String) (z : ℤ) → atoi s ≡ some z → IsInt64 z
unfolding atoi
atoi-IsInt64 String.[] z e = cc
atoi-IsInt64 (String.◌∷◌ c s) z e = ground arith

-- A number that is read from the environment has 64 bits, if its default has.
pub env_int_or_default-IsInt64 :
    (host : Host) (key : String) (fallback : ℤ)
    → IsInt64 fallback
    → IsInt64 (env_int_or_default host key fallback)
unfolding env_int_or_default
env_int_or_default-IsInt64 host key fallback h = elim (Option-cases (atoi (host.getenv key))) [
  | inl bad ↦ ground arith
  | inr (z, good) ↦ ground (arith, atoi-IsInt64 (host.getenv key) z good)
]
