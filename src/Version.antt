-- ===== src/Version.antt =====
-- internal/version/version.go: which Terraform and Terragrunt each stack is planned with. What
-- readVersionFile answers for the root and for a stack's directory is a parameter; a Go set is
-- a list without duplicates.
pub mod Resolution
use driftd.Prelude.{
  String, Bool, Option, none, some, List, [], ◌∷◌, ◌==◌, not, elem, Map, put, if◌then◌else◌,
}

abbrev pub Versions : Type 0
Versions = Map String

abbrev pub add : String → List String → List String
add v s = if elem v s then s else v ∷ s

-- tf := readVersionFile(stackDir); if tf == "" { tf = tfRoot }
abbrev pub version_at : String → (String → String) → String → String
version_at root at stack = if at stack == "" then root else at stack

-- The loop over the stacks, for one of the two tools.
unfoldable pub collect :
    String → (String → String) → List String → Versions → List String → Versions × List String
collect root at [] m s = (m, s)
collect root at (stack ∷ stacks) m s =
    let v = version_at root at stack in
    collect root at stacks (if v == "" then m else put stack v m) (if v == "" then s else add v s)

unfoldable pub collapse_if_single : List String → Versions → String × Versions
collapse_if_single (v ∷ []) m = (v, [])
collapse_if_single _ m = ("", m)

-- for k, v := range stack { if v != def { out[k] = v } }
unfoldable pub drop_default : String → Versions → Versions
drop_default def [] = []
drop_default def ((k, v) ∷ m) =
    let rest = drop_default def m in if v == def then rest else (k, v) ∷ rest

-- dropDefault is called with a root version that is not "".
abbrev pub prefer_root : String → String × Versions → String × Versions
prefer_root root (def, m) = if root == "" then (def, m) else (root, drop_default root m)

-- Detect, for one tool: the default and the map of the stacks.
unfoldable pub detect : String → (String → String) → List String → String × Versions
detect root at stacks =
    let (m, s) = collect root at stacks [] [] in prefer_root root (collapse_if_single s m)
