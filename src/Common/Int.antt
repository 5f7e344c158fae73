-- ===== src/Common/Int.antt =====
-- Go's `int`: integers over the native numbers, and the wrap-around of an increment.
use Prim.Native.Nat.{ℕ, zero, suc, ◌+◌, ◌-◌, ◌≤◌, ◌<◌}
use mathlib.Core.Path.{◌≡◌}
use mathlib.Core.Bool.{Bool, true}
use native.Mathlib.Omega.{arith}
use forge_task_queue.Common.Tests.{ltb, leb, nat_eq, if◌then◌else◌}

-- `negsuc n` is -(n + 1).
pub data ℤ : Type 0 where
  pos : ℕ → ℤ
  negsuc : ℕ → ℤ

abbrev pub pos_part : ℤ → ℕ
pos_part (pos n) = n
pos_part (negsuc n) = 0

abbrev pub neg_part : ℤ → ℕ
neg_part (pos n) = 0
neg_part (negsuc n) = suc n

-- a - b, as an integer.
abbrev pub sub_ℕ : ℕ → ℕ → ℤ
sub_ℕ a b = if leb b a then pos (a - b) else negsuc (b - a - 1)

infixl 65 ◌+ℤ◌
infix 50 ◌≤ℤ◌ ◌<ℤ◌
unfoldable pub ◌+ℤ◌ : ℤ → ℤ → ℤ
a +ℤ b = sub_ℕ (pos_part a + pos_part b) (neg_part a + neg_part b)

abbrev pub ◌≤ℤ◌ : ℤ → ℤ → Type 0
a ≤ℤ b = pos_part a + neg_part b ≤ pos_part b + neg_part a

abbrev pub ◌<ℤ◌ : ℤ → ℤ → Type 0
a <ℤ b = pos_part a + neg_part b < pos_part b + neg_part a

abbrev pub ltb_ℤ : ℤ → ℤ → Bool
ltb_ℤ a b = ltb (pos_part a + neg_part b) (pos_part b + neg_part a)

abbrev pub leb_ℤ : ℤ → ℤ → Bool
leb_ℤ a b = leb (pos_part a + neg_part b) (pos_part b + neg_part a)

pub +ℤ_parts :
    (a b : ℤ)
    → pos_part (a +ℤ b) + neg_part a + neg_part b ≡ neg_part (a +ℤ b) + pos_part a + pos_part b
unfolding ◌+ℤ◌
+ℤ_parts a b = ground arith

pub eq_of_parts : (a b : ℤ) → pos_part a + neg_part b ≡ pos_part b + neg_part a → a ≡ b
eq_of_parts a b h = ground arith

pub ruleset int_laws = (arith, +ℤ_parts, eq_of_parts)

-- The largest 64-bit `int`.
abbrev pub max_int : ℕ
max_int = 0x7fff_ffff_ffff_ffff

-- What a 64-bit `int` can hold.
abbrev pub IsInt64 : ℤ → Type 0
IsInt64 (pos n) = n ≤ max_int
IsInt64 (negsuc n) = n ≤ max_int

-- `x++` on a 64-bit `int`: the largest value wraps to the smallest.
unfoldable pub inc : ℤ → ℤ
inc (pos n) = if nat_eq n max_int then negsuc max_int else pos (n + 1)
inc (negsuc zero) = pos 0
inc (negsuc (suc n)) = negsuc n

-- Below another `int` an increment does not wrap, and stays at most that `int`.
pub inc-lt :
    (a b : ℤ)
    → ltb_ℤ a b ≡ true
    → IsInt64 a
    → IsInt64 b
    → (inc a ≡ a +ℤ pos 1) × (inc a ≤ℤ b) × IsInt64 (inc a)
unfolding inc ◌+ℤ◌
inc-lt (pos n) (pos m) h k l = ground arith
inc-lt (negsuc zero) b h k l = ground arith
inc-lt (negsuc (suc n)) b h k l = ground arith
inc-lt (pos n) (negsuc m) h k l = ground arith
