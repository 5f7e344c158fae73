-- ===== src/Config/Lists.antt =====
-- The lists that are read from the environment.
use Prim.Native.Char.{Char, code}
use Prim.Native.String.{String}
use forge_task_queue.Common.{
  ◌≡◌, ◌≢◌, true, false, ◌&&◌, List, [], ◌∷◌, All, ◌==◌, eq_iff, arith, nat_eq, Bool-cases, inl,
  inr, eq-false,
}
use forge_task_queue.Common.Text.{split_commas, onto_first}
use forge_task_queue.Config.Strconv.{trim_space, trim_left, trim_right, is_space}
use forge_task_queue.Config.{Host, kept_parts, env_list_or_default}

abbrev pub NoComma : String → Type 0
NoComma String.[] = Unit
NoComma (String.◌∷◌ c s) = (code c ≢ 44) × NoComma s

-- The first character, if any, is no space; nor is the last.
abbrev pub StartsClean : String → Type 0
StartsClean String.[] = Unit
StartsClean (String.◌∷◌ c s) = is_space (code c) ≡ false

abbrev pub EndsClean : String → Type 0
EndsClean String.[] = Unit
EndsClean (String.◌∷◌ c String.[]) = is_space (code c) ≡ false
EndsClean (String.◌∷◌ c (String.◌∷◌ d s)) = EndsClean (String.◌∷◌ d s)

-- What an entry of a list looks like.
abbrev pub IsEntry : String → Type 0
IsEntry s = (s ≢ "") × StartsClean s × EndsClean s × NoComma s

onto_first-NoComma :
    (c : Char) (parts : List String)
    → code c ≢ 44
    → All NoComma parts
    → All NoComma (onto_first c parts)
onto_first-NoComma c [] h k = ((h, tt), tt)
onto_first-NoComma c (part ∷ parts) h k = ((h, k.0), k.1)

split_commas-NoComma : (s : String) → All NoComma (split_commas s)
unfolding split_commas
split_commas-NoComma String.[] = (tt, tt)
split_commas-NoComma (String.◌∷◌ c s) = elim (Bool-cases (nat_eq (code c) 44)) [
  | inl comma ↦ rw comma (tt, split_commas-NoComma s)
  | inr other ↦
      rw other (onto_first-NoComma c (split_commas s) (ground arith) (split_commas-NoComma s))
]

trim_left-StartsClean : (s : String) → StartsClean (trim_left s)
unfolding trim_left
trim_left-StartsClean String.[] = tt
trim_left-StartsClean (String.◌∷◌ c s) = ground (arith, trim_left-StartsClean s)

trim_left-NoComma : (s : String) → NoComma s → NoComma (trim_left s)
unfolding trim_left
trim_left-NoComma String.[] h = tt
trim_left-NoComma (String.◌∷◌ c s) h = ground (arith, trim_left-NoComma s h.1)

trim_right-NoComma : (s : String) → NoComma s → NoComma (trim_right s)
unfolding trim_right
trim_right-NoComma String.[] h = tt
trim_right-NoComma (String.◌∷◌ c s) h =
    elim (Bool-cases (is_space (code c) && trim_right s == "")) [
      | inl space ↦ rw space tt
      | inr other ↦ rw other (h.0, trim_right-NoComma s h.1)
    ]

trim_right-StartsClean : (s : String) → StartsClean s → StartsClean (trim_right s)
unfolding trim_right
trim_right-StartsClean String.[] h = tt
trim_right-StartsClean (String.◌∷◌ c s) h = ground arith

EndsClean-cons :
    (c : Char) (s : String)
    → EndsClean s
    → ¬ ((is_space (code c) ≡ true) × (s ≡ ""))
    → EndsClean (String.◌∷◌ c s)
EndsClean-cons c String.[] h k = ground (arith, k)
EndsClean-cons c (String.◌∷◌ d s) h k = h

trim_right-EndsClean : (s : String) → EndsClean (trim_right s)
unfolding trim_right
trim_right-EndsClean String.[] = tt
trim_right-EndsClean (String.◌∷◌ c s) =
    elim (Bool-cases (is_space (code c) && trim_right s == "")) [
      | inl space ↦ rw space tt
      | inr other ↦ rw other (
          EndsClean-cons c (trim_right s) (trim_right-EndsClean s)
            (λ both. ground (arith, other, both.0, (eq_iff (trim_right s) "").1 both.1)))
    ]

kept_parts-IsEntry : (parts : List String) → All NoComma parts → All IsEntry (kept_parts parts)
unfolding kept_parts trim_space
kept_parts-IsEntry [] h = tt
kept_parts-IsEntry (part ∷ parts) h = elim (Bool-cases (trim_space part == "")) [
  | inl blank ↦ rw blank (kept_parts-IsEntry parts h.1)
  | inr full ↦ rw full (
    (
      (λ e. ground (arith, full, (eq_iff (trim_space part) "").1 e)),
      trim_right-StartsClean (trim_left part) (trim_left-StartsClean part),
      trim_right-EndsClean (trim_left part),
      trim_right-NoComma (trim_left part) (trim_left-NoComma part h.0),
    ),
    kept_parts-IsEntry parts h.1,
  )
]

-- A list variable that is set yields entries that are not empty, hold no comma and neither begin
-- nor end with a space, whatever its text.
pub env_list_or_default-IsEntry :
    (host : Host) (key : String) (fallback : List String)
    → host.getenv key ≢ ""
    → All IsEntry (env_list_or_default host key fallback)
unfolding env_list_or_default
env_list_or_default-IsEntry host key fallback h =
    rw (eq-false (host.getenv key) "" h)
      (kept_parts-IsEntry (split_commas (host.getenv key)) (split_commas-NoComma (host.getenv key)))
