-- ===== src/Prelude/Paths.antt =====
-- What the program uses of Go's packages path and path/filepath, on Linux, where ToSlash changes
-- nothing.
use Prim.Native.String.{String, ◌++◌}
use mathlib.Core.Bool.{Bool, true, false, ◌||◌, ◌&&◌, not}
use mathlib.Core.List.{List, [], ◌∷◌}
use text.Mathlib.Text.{◌==◌}
use driftd.Prelude.Tests.{if◌then◌else◌}
use driftd.Prelude.Text.{split_at, has_prefix}

-- The parts that are kept, the last first, with one more part behind them.
abbrev push_part : Bool → String → List String → List String
push_part rooted part [] =
    if part == "" || part == "." then [] else if part == ".." && rooted then [] else part ∷ []
push_part rooted part (last ∷ out) =
    if part == "" || part == "."
    then last ∷ out
    else if part == ".." && not (last == "..")
    then out
    else part ∷ last ∷ out

abbrev clean_parts : Bool → List String → List String → List String
clean_parts rooted out [] = out
clean_parts rooted out (part ∷ parts) = clean_parts rooted (push_part rooted part out) parts

-- The parts, the last first, with slashes between them.
abbrev join_parts : List String → String → String
join_parts [] text = text
join_parts (part ∷ out) text = join_parts out (part ++ ("/" ++ text))

abbrev render : Bool → List String → String
render true [] = "/"
render true (part ∷ out) = "/" ++ join_parts out part
render false [] = "."
render false (part ∷ out) = join_parts out part

-- path.Clean and filepath.Clean
unfoldable pub clean : String → String
clean p = let rooted = has_prefix "/" p in render rooted (clean_parts rooted [] (split_at 47 p))

-- The last of the parts that are not empty.
abbrev last_part : List String → String
last_part [] = ""
last_part (part ∷ parts) = let rest = last_part parts in if rest == "" then part else rest

-- filepath.Base
unfoldable pub base : String → String
base p =
    let part = last_part (split_at 47 p) in
    if p == "" then "." else if part == "" then "/" else part

-- filepath.Join of two paths that are not empty
unfoldable pub join : String → String → String
unfolding clean
join p q = clean (p ++ ("/" ++ q))
