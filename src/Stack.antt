-- ===== src/Stack.antt =====
-- internal/stack/discover.go: the lists of the stacks that Discover keeps. The walk of the file
-- system and sort.Strings are not modelled: the lists are what they leave.
pub mod Leaves
use Prim.Native.Char.{code}
use Prim.Native.String.{◌++◌}
use driftd.Prelude.{
  has_prefix, String, Bool, true, false, ◌&&◌, ◌||◌, List, [], ◌∷◌, nat_eq, ◌==◌, elem,
  if◌then◌else◌,
}

-- prefix := stack; if prefix != "" { prefix += "/" }
abbrev pub below : String → String
below stack = if stack == "" then "" else stack ++ "/"

-- for j := i + 1; j < len(stacks); j++ { … }
unfoldable pub has_child : String → List String → Bool
has_child stack [] = false
has_child stack (s ∷ later) = let rest = has_child stack later in has_prefix (below stack) s || rest

-- The loop; a list of fewer than two comes out as it is.
unfoldable pub filter_parent_stacks : List String → List String
filter_parent_stacks [] = []
filter_parent_stacks (stack ∷ later) =
    let rest = filter_parent_stacks later in if has_child stack later then rest else stack ∷ rest

-- addStack: the directories seen, and the stacks in the order they were found, the last first.
unfoldable pub add_stack : String → List String → List String
add_stack dir seen =
    let dir' = if dir == "." then "" else dir in if elem dir' seen then seen else dir' ∷ seen
