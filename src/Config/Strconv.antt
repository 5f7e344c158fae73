-- ===== src/Config/Strconv.antt =====
-- What the configuration uses of strconv and strings: `Atoi`, `ParseBool`, `TrimSpace`.
use Prim.Native.Char.{code}
use Prim.Native.String.{String}
use forge_task_queue.Common.{
  ℕ, ◌+◌, ◌-◌, ◌*◌, ◌≡◌, refl, Bool, true, false, ◌&&◌, ◌||◌, Option, none, some, ◌==◌, leb, nat_eq,
  if◌then◌else◌,
}
use forge_task_queue.Common.Int.{ℤ, pos, negsuc, max_int}

abbrev pub is_digit : ℕ → Bool
is_digit c = leb 48 c && leb c 57

-- The value of a text of digits after those that gave `acc`.
unfoldable pub digits_value : ℕ → String → Option ℕ
digits_value acc String.[] = some acc
digits_value acc (String.◌∷◌ c s) =
    let rest = digits_value (acc * 10 + (code c - 48)) s in if is_digit (code c) then rest else none

-- At least one digit.
abbrev pub natural : String → Option ℕ
natural String.[] = none
natural (String.◌∷◌ c s) = digits_value 0 (String.◌∷◌ c s)

-- A 64-bit integer with this size and sign, or an error.
abbrev pub positive : Option ℕ → Option ℤ
positive none = none
positive (some n) = if leb n max_int then some (pos n) else none

abbrev pub negative : Option ℕ → Option ℤ
negative none = none
negative (some n) =
    if nat_eq n 0 then some (pos 0) else if leb n (max_int + 1) then some (negsuc (n - 1)) else none

-- `strconv.Atoi`; `none` is an error.
unfoldable pub atoi : String → Option ℤ
unfolding digits_value
atoi String.[] = none
atoi (String.◌∷◌ c s) =
    if nat_eq (code c) 45
    then negative (natural s)
    else if nat_eq (code c) 43
    then positive (natural s)
    else positive (natural (String.◌∷◌ c s))

-- `strconv.ParseBool`
unfoldable pub parse_bool : String → Option Bool
parse_bool s =
    if s == "1" || s == "t" || s == "T" || s == "true" || s == "TRUE" || s == "True"
    then some true
    else if s == "0" || s == "f" || s == "F" || s == "false" || s == "FALSE" || s == "False"
    then some false
    else none

-- `unicode.IsSpace`
unfoldable pub is_space : ℕ → Bool
is_space c =
    (leb 9 c && leb c 13)
    || nat_eq c 32
    || nat_eq c 0x85
    || nat_eq c 0xa0
    || nat_eq c 0x1680
    || (leb 0x2000 c && leb c 0x200a)
    || nat_eq c 0x2028
    || nat_eq c 0x2029
    || nat_eq c 0x202f
    || nat_eq c 0x205f
    || nat_eq c 0x3000

unfoldable pub trim_left : String → String
trim_left String.[] = ""
trim_left (String.◌∷◌ c s) =
    let rest = trim_left s in if is_space (code c) then rest else String.◌∷◌ c s

unfoldable pub trim_right : String → String
trim_right String.[] = ""
trim_right (String.◌∷◌ c s) =
    let rest = trim_right s in if is_space (code c) && rest == "" then "" else String.◌∷◌ c rest

-- `strings.TrimSpace`
unfoldable pub trim_space : String → String
unfolding trim_left trim_right is_space
trim_space s = trim_right (trim_left s)

trim_example : trim_space "  a b " ≡ "a b"
unfolding trim_space
trim_example = refl

atoi_example : atoi "-120" ≡ some (negsuc 119)
unfolding atoi
atoi_example = refl
