-- ===== src/Prelude/Prefixes.antt =====
-- What lies below a directory, read from the text of the paths.
use Prim.Native.Char.{code}
use Prim.Native.String.{String, ◌++◌}
use Prim.Native.String.append
use mathlib.Core.Path.{◌≡◌, refl, sym, ap, ◌∙◌}
use mathlib.Core.Logic.{◌↔◌, ◌⊎◌, inl, inr}
use mathlib.Core.Bool.{Bool, true, false, ◌||◌}
use native.Mathlib.Omega.{arith}
use text.Mathlib.Text.{◌==◌}
use text.Mathlib.TextEquality.{eq_iff, Char-path}
use text.Mathlib.TextLemmas.{append_assoc}
use driftd.Prelude.Text.{has_prefix}

has_prefix-append : (p rest : String) → has_prefix p (p ++ rest) ≡ true
unfolding has_prefix
has_prefix-append String.[] rest = refl
has_prefix-append (String.◌∷◌ c p) rest =
    ap (has_prefix (String.◌∷◌ c p)) (append.cons c p rest)
    ∙ ground (arith, has_prefix-append p rest)

-- A text with the prefix is the prefix and a rest.
prefix_rest : (p s : String) → has_prefix p s ≡ true → (rest : String) × (s ≡ p ++ rest)
unfolding has_prefix
prefix_rest String.[] s h = (s, sym (append.nil s))
prefix_rest (String.◌∷◌ c p) String.[] h = cc
prefix_rest (String.◌∷◌ c p) (String.◌∷◌ d s) h =
    let (rest, e) = prefix_rest p s (ground arith) in
    let same : code c ≡ code d = ground arith in
    (
      rest,
      ap (λ x. String.◌∷◌ x s) (sym (Char-path c d same))
          ∙ ap (String.◌∷◌ c) e
          ∙ sym (append.cons c p rest),
    )

-- The path lies below the directory: every path below the root, else one that the directory and a
-- slash begin.
abbrev pub Below : String → String → Type 0
Below dir path = (dir ≡ "") ⊎ ((rest : String) × (path ≡ dir ++ ("/" ++ rest)))

pub Below-iff :
    (dir path : String) → ((dir == "" || has_prefix (dir ++ "/") path) ≡ true) ↔ Below dir path
Below-iff dir path = (to (dir == "") refl, from)
  where
    to : (b : Bool) → (dir == "") ≡ b → (b || has_prefix (dir ++ "/") path) ≡ true → Below dir path
    to true e h = inl ((eq_iff dir "").0 e)
    to false e h =
        let (rest, q) = prefix_rest (dir ++ "/") path h in inr (rest, q ∙ append_assoc dir "/" rest)

    from : Below dir path → (dir == "" || has_prefix (dir ++ "/") path) ≡ true
    from (inl e) = rw ((eq_iff dir "").1 e) refl
    from (inr (rest, e)) =
        let h : has_prefix (dir ++ "/") path ≡ true =
          ap (has_prefix (dir ++ "/")) (e ∙ sym (append_assoc dir "/" rest))
          ∙ has_prefix-append (dir ++ "/") rest in
        ground (arith, h)
