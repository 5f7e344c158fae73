-- ===== src/Task/Json.antt =====
-- JSON values as `encoding/json` scans and writes them, and the folding of object keys.
-- A text is known up to what the scanner makes of it: a value, or no value.
use Prim.Native.Char.{code}
use Prim.Native.String.{String}
use forge_task_queue.Common.{ℕ, ◌+◌, ◌≡◌, refl, Bool, true, false, ◌&&◌, leb, nat_eq, if◌then◌else◌}
use forge_task_queue.Common.Int.{ℤ}

mutual
  -- `int` is a number written as an integer, `real` any other number, with its text.
  pub data Json : Type 0 where
    null : Json
    bool : Bool → Json
    int : ℤ → Json
    real : String → Json
    str : String → Json
    arr : Items → Json
    obj : Members → Json

  pub data Items : Type 0 where
    nil : Items
    cons : Json → Items → Items

  -- The members of an object in the order in which they are written; a key may be repeated.
  pub data Members : Type 0 where
    end : Members
    member : String → Json → Members → Members

-- A byte string: the JSON value that it stands for, or a text that is no JSON value.
pub data JsonText : Type 0 where
  valid : Json → JsonText
  invalid : String → JsonText

-- Keys match field names up to simple case folding: of the letters outside ASCII only the long s
-- and the Kelvin sign fold to an ASCII letter.
fold_rune : ℕ → ℕ
fold_rune c =
    if leb 65 c && leb c 90
    then c + 32
    else if nat_eq c 0x17f
    then 115
    else if nat_eq c 0x212a
    then 107
    else c

-- Whether a key of the input names the field `name`, a name in small letters.
unfoldable pub key_matches : String → String → Bool
unfolding fold_rune
key_matches String.[] String.[] = true
key_matches (String.◌∷◌ c key) (String.◌∷◌ d name) =
    nat_eq (fold_rune (code c)) (code d) && key_matches key name
key_matches _ _ = false

folded_key : key_matches "Max_RetrieS" "max_retries" ≡ true
unfolding key_matches
folded_key = refl
