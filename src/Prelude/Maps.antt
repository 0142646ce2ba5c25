-- ===== src/Prelude/Maps.antt =====
-- A Go map with text keys, as an association list; the order in which Go visits a map is left to
-- the functions that visit it.
use Prim.Native.String.{String}
use mathlib.Core.Path.{◌≡◌, refl}
use mathlib.Core.Bool.{Bool}
use mathlib.Core.Option.{Option, none, some}
use mathlib.Core.List.{List, [], ◌∷◌}
use native.Mathlib.Omega.{arith}
use text.Mathlib.Text.{◌==◌}
use text.Mathlib.TextEquality.{eq_iff}
use driftd.Prelude.Tests.{if◌then◌else◌, is_some}

abbrev pub Map {ℓ} : Type ℓ → Type ℓ
Map V = List (String × V)

module _ {ℓ} {V : Type ℓ} where
  abbrev pub lookup : String → Map V → Option V
  lookup k [] = none
  lookup k ((j, v) ∷ m) = if j == k then some v else lookup k m

  -- m[k] = v
  abbrev pub put : String → V → Map V → Map V
  put k v [] = (k, v) ∷ []
  put k v ((j, w) ∷ m) = let rest = put k v m in if j == k then (k, v) ∷ m else (j, w) ∷ rest

  -- delete(m, k)
  abbrev pub erase : String → Map V → Map V
  erase k [] = []
  erase k ((j, w) ∷ m) = let rest = erase k m in if j == k then rest else (j, w) ∷ rest

  -- _, ok := m[k]
  abbrev pub has : String → Map V → Bool
  has k m = is_some (lookup k m)

  pub lookup-put :
      (k : String) (v : V) (j : String) (m : Map V)
      → lookup j (put k v m) ≡ (if k == j then some v else lookup j m)
  lookup-put k v j [] = refl
  lookup-put k v j ((i, w) ∷ m) =
      grind (arith, lookup-put k v j m, eq_iff i k, eq_iff i j, eq_iff k j)

  pub lookup-erase :
      (k j : String) (m : Map V) → lookup j (erase k m) ≡ (if k == j then none else lookup j m)
  lookup-erase k j [] = ground arith
  lookup-erase k j ((i, w) ∷ m) =
      grind (arith, lookup-erase k j m, eq_iff i k, eq_iff i j, eq_iff k j)
