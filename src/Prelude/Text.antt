-- ===== src/Prelude/Text.antt =====
-- What the program uses of Go's package strings, on ASCII text: letters and blanks beyond ASCII are
-- left alone by `to_lower` and `trim_space`.
use Prim.Native.Char.{Char, code}
use Prim.Native.String.{String, char_at}
use Prim.Native.Nat.{ℕ, zero, suc, ◌-◌}
use mathlib.Core.Bool.{Bool, true, false, ◌&&◌, ◌||◌}
use mathlib.Core.Option.{Option, none, some}
use mathlib.Core.List.{List, [], ◌∷◌}
use text.Mathlib.Text.{◌==◌}
use driftd.Prelude.Tests.{if◌then◌else◌, nat_eq, leb}

-- strings.HasPrefix, with the arguments the other way round
unfoldable pub has_prefix : String → String → Bool
has_prefix String.[] s = true
has_prefix (String.◌∷◌ c p) String.[] = false
has_prefix (String.◌∷◌ c p) (String.◌∷◌ d s) =
    let rest = has_prefix p s in nat_eq (code c) (code d) && rest

-- strings.HasSuffix, the suffix first
unfoldable pub has_suffix : String → String → Bool
has_suffix p String.[] = p == ""
has_suffix p (String.◌∷◌ d s) = let rest = has_suffix p s in p == String.◌∷◌ d s || rest

-- What is left behind a prefix; `none` without it.
unfoldable pub after_prefix : String → String → Option String
after_prefix String.[] s = some s
after_prefix (String.◌∷◌ c p) String.[] = none
after_prefix (String.◌∷◌ c p) (String.◌∷◌ d s) =
    let rest = after_prefix p s in if nat_eq (code c) (code d) then rest else none

-- strings.TrimPrefix
unfoldable pub trim_prefix : String → String → String
unfolding after_prefix
trim_prefix p s = elim (after_prefix p s) [ none ↦ s | some rest ↦ rest ]

-- strings.Contains and strings.Index: what stands behind the first occurrence
unfoldable pub after_first : String → String → Option String
unfolding after_prefix
after_first p String.[] = after_prefix p String.[]
after_first p (String.◌∷◌ d s) =
    let later = after_first p s in
    elim (after_prefix p (String.◌∷◌ d s)) [ none ↦ later | some rest ↦ some rest ]

unfoldable pub contains : String → String → Bool
unfolding after_first
contains p s = elim (after_first p s) [ none ↦ false | some _ ↦ true ]

abbrev lower_char : Char → Char
lower_char c =
    if leb 65 (code c) && leb (code c) 90
    then char_at "abcdefghijklmnopqrstuvwxyz" (code c - 65)
    else c

-- strings.ToLower
unfoldable pub to_lower : String → String
to_lower String.[] = ""
to_lower (String.◌∷◌ c s) = String.◌∷◌ (lower_char c) (to_lower s)

abbrev is_blank : ℕ → Bool
is_blank c = nat_eq c 32 || (leb 9 c && leb c 13)

trim_left : String → String
trim_left String.[] = ""
trim_left (String.◌∷◌ c s) =
    let rest = trim_left s in if is_blank (code c) then rest else String.◌∷◌ c s

trim_right : String → String
trim_right String.[] = ""
trim_right (String.◌∷◌ c s) = elim (trim_right s) [
  | String.[] ↦ (if is_blank (code c) then "" else String.◌∷◌ c "")
  | String.◌∷◌ d t ↦ String.◌∷◌ c (String.◌∷◌ d t)
]

-- strings.TrimSpace
unfoldable pub trim_space : String → String
unfolding trim_left trim_right
trim_space s = trim_right (trim_left s)

-- The pieces between the separators, of one character.
unfoldable pub split_at : ℕ → String → List String
split_at sep String.[] = "" ∷ []
split_at sep (String.◌∷◌ c s) =
    let rest = split_at sep s in
    if nat_eq (code c) sep
    then "" ∷ rest
    else elim rest [ [] ↦ String.◌∷◌ c "" ∷ [] | p ∷ ps ↦ String.◌∷◌ c p ∷ ps ]

-- len(s)
unfoldable pub text_length : String → ℕ
text_length String.[] = 0
text_length (String.◌∷◌ c s) = suc (text_length s)

abbrev onto_first : Char → List String → List String
onto_first c [] = String.◌∷◌ c "" ∷ []
onto_first c (p ∷ ps) = String.◌∷◌ c p ∷ ps

-- The pieces of a text of whose first characters `skip` belong to a separator that has ended a piece.
unfoldable split_behind : String → ℕ → String → List String
unfolding has_prefix text_length
split_behind sep skip String.[] = "" ∷ []
split_behind sep (suc skip) (String.◌∷◌ c s) = split_behind sep skip s
split_behind sep zero (String.◌∷◌ c s) = elim (has_prefix sep (String.◌∷◌ c s)) [
  | true ↦ "" ∷ split_behind sep (text_length sep - 1) s
  | false ↦ onto_first c (split_behind sep zero s)
]

-- strings.Split, the separator first, which is not empty
unfoldable pub split : String → String → List String
unfolding split_behind
split sep s = split_behind sep zero s

abbrev pub all_chars : (ℕ → Bool) → String → Bool
all_chars f String.[] = true
all_chars f (String.◌∷◌ c s) = let rest = all_chars f s in f (code c) && rest

-- [A-Za-z0-9._-]
abbrev pub valid_name_char : ℕ → Bool
valid_name_char c =
    leb 65 c && leb c 90
    || leb 97 c && leb c 122
    || leb 48 c && leb c 57
    || nat_eq c 46
    || nat_eq c 95
    || nat_eq c 45

trim_char_left : ℕ → String → String
trim_char_left x String.[] = ""
trim_char_left x (String.◌∷◌ c s) =
    let rest = trim_char_left x s in if nat_eq (code c) x then rest else String.◌∷◌ c s

trim_char_right : ℕ → String → String
trim_char_right x String.[] = ""
trim_char_right x (String.◌∷◌ c s) = elim (trim_char_right x s) [
  | String.[] ↦ (if nat_eq (code c) x then "" else String.◌∷◌ c "")
  | String.◌∷◌ d t ↦ String.◌∷◌ c (String.◌∷◌ d t)
]

-- strings.Trim with one character
unfoldable pub trim_char : ℕ → String → String
unfolding trim_char_left trim_char_right
trim_char x s = trim_char_right x (trim_char_left x s)
