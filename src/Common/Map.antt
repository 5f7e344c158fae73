-- ===== src/Common/Map.antt =====
-- Go's `map[string]V` as an association list: reading, writing and deleting a key.
use Prim.Native.String.{String}
use mathlib.Core.Path.{◌≡◌, refl}
use mathlib.Core.Option.{Option, none, some}
use mathlib.Core.List.{List, [], ◌∷◌}
use native.Mathlib.Omega.{arith}
use text.Mathlib.Text.{◌==◌}
use text.Mathlib.TextEquality.{eq_iff}
use forge_task_queue.Common.Tests.{if◌then◌else◌}

module _ {ℓ} {V : Type ℓ} where
  unfoldable pub lookup : String → List (String × V) → Option V
  lookup key [] = none
  lookup key ((k, v) ∷ m) = if k == key then some v else lookup key m

  unfoldable pub insert : String → V → List (String × V) → List (String × V)
  insert key v [] = (key, v) ∷ []
  insert key v ((k, u) ∷ m) = if k == key then (key, v) ∷ m else (k, u) ∷ insert key v m

  pub lookup-insert :
      (key other : String) (v : V) (m : List (String × V))
      → lookup other (insert key v m) ≡ (if key == other then some v else lookup other m)
  unfolding lookup insert
  lookup-insert key other v [] = refl
  lookup-insert key other v ((k, u) ∷ m) =
      ground (arith, eq_iff key other, eq_iff k key, eq_iff k other, lookup-insert key other v m)
