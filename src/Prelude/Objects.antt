-- ===== src/Prelude/Objects.antt =====
-- A JavaScript object whose keys are texts, as its entries in insertion order. `Object.entries` is
-- the list itself.
use Prim.Native.String.{String}
use mathlib.Core.Path.{◌≡◌, refl}
use mathlib.Core.Bool.{Bool, false, ◌||◌}
use mathlib.Core.Option.{Option, none, some}
use mathlib.Core.List.{List, [], ◌∷◌, map}
use native.Mathlib.Omega.{arith}
use text.Mathlib.Text.{◌==◌}
use text.Mathlib.TextEquality.{eq_iff}
use vinium_lending.Prelude.Tests.{if◌then◌else◌}

abbrev pub Object {ℓ} : Type ℓ → Type ℓ
Object V = List (String × V)

-- `list.includes(key)`
abbrev pub includes : List String → String → Bool
includes [] k = false
includes (x ∷ xs) k = x == k || includes xs k

module _ {ℓ} {V : Type ℓ} where
  -- `Object.keys(o)`
  abbrev pub keys : Object V → List String
  keys o = map (λ e. e.0) o

  -- `o[k]`; `none` is `undefined`.
  abbrev pub lookup : String → Object V → Option V
  lookup k [] = none
  lookup k ((j, v) ∷ o) = if j == k then some v else lookup k o

  -- `o[k] = v`: an old key keeps its place, a new one goes last.
  abbrev pub insert : String → V → Object V → Object V
  insert k v [] = (k, v) ∷ []
  insert k v ((j, w) ∷ o) = if j == k then (j, v) ∷ o else (j, w) ∷ insert k v o

  pub lookup-insert :
      (k j : String) (v : V) (o : Object V)
      → lookup j (insert k v o) ≡ (if k == j then some v else lookup j o)
  lookup-insert k j v [] = refl
  lookup-insert k j v ((i, w) ∷ o) =
      ground (arith, eq_iff k j, eq_iff i k, eq_iff i j, lookup-insert k j v o)

  -- No key is listed twice, as in every object.
  abbrev pub IsObject : Object V → Type 0
  IsObject [] = Unit
  IsObject ((k, v) ∷ o) = (includes (keys o) k ≡ false) × IsObject o
