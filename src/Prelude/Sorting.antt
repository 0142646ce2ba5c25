-- ===== src/Prelude/Sorting.antt =====
-- What the program uses of Go's package sort: texts in the order of their bytes (of ASCII text).
use Prim.Native.Char.{code}
use Prim.Native.String.{String}
use mathlib.Core.Path.{◌≡◌, refl}
use mathlib.Core.Bool.{Bool, true, false, ◌||◌}
use mathlib.Core.List.{List, [], ◌∷◌}
use native.Mathlib.Omega.{arith}
use text.Mathlib.Text.{◌==◌}
use driftd.Prelude.Tests.{if◌then◌else◌, nat_eq, ltb}
use driftd.Prelude.Lists.{elem}

-- a < b
unfoldable pub less : String → String → Bool
less a String.[] = false
less String.[] (String.◌∷◌ d b) = true
less (String.◌∷◌ c a) (String.◌∷◌ d b) =
    let rest = less a b in if nat_eq (code c) (code d) then rest else ltb (code c) (code d)

module _ {A : Type 0} (key : A → String) where
  unfoldable pub insert_by : A → List A → List A
  insert_by x [] = x ∷ []
  insert_by x (y ∷ ys) =
      let rest = insert_by x ys in if less (key x) (key y) then x ∷ y ∷ ys else y ∷ rest

  -- sort.Slice by a text; entries with the same text stay in some order.
  unfoldable pub sort_by : List A → List A
  sort_by [] = []
  sort_by (x ∷ xs) = insert_by x (sort_by xs)

-- sort.Strings
abbrev pub sort_strings : List String → List String
sort_strings xs = sort_by (λ x. x) xs

elem-insert_by :
    (x y : String) (ys : List String) → elem x (insert_by (λ t. t) y ys) ≡ (y == x || elem x ys)
unfolding insert_by
elem-insert_by x y [] = refl
elem-insert_by x y (z ∷ ys) = grind (arith, elem-insert_by x y ys)

-- Sorting keeps the members.
pub elem-sort_strings : (x : String) (ys : List String) → elem x (sort_strings ys) ≡ elem x ys
unfolding sort_by
elem-sort_strings x [] = refl
elem-sort_strings x (y ∷ ys) =
    grind (arith, elem-insert_by x y (sort_strings ys), elem-sort_strings x ys)
