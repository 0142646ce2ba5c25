-- ===== src/Stack/Leaves.antt =====
-- filterParentStacks keeps the stacks that have no stack below them.
use Prim.Native.String.{◌++◌}
use driftd.Prelude.{
  ◌⊎◌, ◌↔◌, ◌||◌, String, Bool, true, false, List, [], ◌∷◌, ◌≡◌, ◌==◌, refl, arith, elem, sym,
  if◌then◌else◌, ◌∙◌, subst, eq_iff, has_prefix, Bool-cases, inl, inr, Below, Below-iff,
}
use mathlib.Core.Bool.{false≢true}
use driftd.Stack.{below, has_child, filter_parent_stacks}

-- None of the stacks lies below this one.
abbrev pub Childless : String → List String → Type 0
Childless x [] = Unit
Childless x (y ∷ l) = (¬ (Below x y)) × Childless x l

-- The stack stands in the list with none below it further on.
abbrev pub Leaf : String → List String → Type 0
Leaf x [] = ⊥
Leaf x (y ∷ l) = ((y ≡ x) × Childless x l) ⊎ Leaf x l

child_iff : (x y : String) → (has_prefix (below x) y ≡ true) ↔ Below x y
unfolding has_prefix
child_iff x y =
    (λ h. (Below-iff x y).0 (sym (go (x == "")) ∙ h), λ b. go (x == "") ∙ (Below-iff x y).1 b)
  where
    go : (b : Bool) → has_prefix (if b then "" else x ++ "/") y ≡ (b || has_prefix (x ++ "/") y)
    go true = refl
    go false = refl

has_child-Childless : (x : String) (l : List String) → (has_child x l ≡ false) ↔ Childless x l
unfolding has_child
has_child-Childless x [] = (λ h. tt, λ c. refl)
has_child-Childless x (y ∷ l) = (
  λ h. (
    λ b. false≢true (sym (first h) ∙ (child_iff x y).1 b),
    (has_child-Childless x l).0 (ground arith),
  ),
  λ (not_below, c). neither (has_prefix (below x) y) refl not_below ((has_child-Childless x l).1 c),
)
  where
    first : (has_prefix (below x) y || has_child x l) ≡ false → has_prefix (below x) y ≡ false
    first h = ground arith

    neither :
        (b : Bool)
        → has_prefix (below x) y ≡ b
        → ¬ (Below x y)
        → has_child x l ≡ false
        → (b || has_child x l) ≡ false
    neither true e ne h = absurd (ne ((child_iff x y).0 e))
    neither false e ne h = h

-- A stack is kept exactly if it was found with no stack found below it further on in the list,
-- where everything lies below the root.
pub filter_parent_stacks-Leaf :
    (l : List String) (x : String) → (elem x (filter_parent_stacks l) ≡ true) ↔ Leaf x l
unfolding filter_parent_stacks
filter_parent_stacks-Leaf [] x = (λ h. absurd (false≢true h), λ c. absurd c)
filter_parent_stacks-Leaf (y ∷ l) x = go (filter_parent_stacks-Leaf l x) (has_child y l) refl
  where
    here : (y == x) ≡ true → has_child y l ≡ false → (y ≡ x) × Childless x l
    here e h =
        let same : y ≡ x = (eq_iff y x).0 e in
        (same, subst (λ z. Childless z l) same ((has_child-Childless y l).0 h))

    go :
        ((elem x (filter_parent_stacks l) ≡ true) ↔ Leaf x l)
        → (b : Bool) → has_child y l ≡ b
        → (elem x (if b then filter_parent_stacks l else y ∷ filter_parent_stacks l) ≡ true)
          ↔ Leaf x (y ∷ l)
    go rest true h = (
      λ e. inr (rest.0 e),
      λ k. elim k [
        | inl (same, c) ↦ absurd (
            false≢true
              (sym ((has_child-Childless y l).1 (subst (λ z. Childless z l) (sym same) c)) ∙ h))
        | inr t ↦ rest.1 t
      ],
    )
    go rest false h = (
      λ e. elim (Bool-cases (y == x)) [
        | inl same ↦ inl (here same h)
        | inr other ↦ inr (rest.0 (ground arith))
      ],
      λ k. elim k [
        | inl (same, c) ↦ let t : (y == x) ≡ true = (eq_iff y x).1 same in ground arith
        | inr t ↦ let t' = rest.1 t in ground arith
      ],
    )
