-- ===== src/Config/Projects.antt =====
-- internal/config/config.go: the projects of a configuration, with the parts of a monorepo as projects of
-- their own. Every refusal is `rejected`, whatever its text.
use driftd.Prelude.{
  String, Bool, false, List, [], ◌∷◌, ◌++◌, ◌==◌, not, ◌||◌, elem, ltb, if◌then◌else◌, Result, ok,
  err, rejected, trim_space, has_prefix, clean, sort_strings, valid_name_char, all_chars,
  text_length, or_else, length,
}
use driftd.Config.{MonorepoProjectConfig, ProjectConfig}
use Prim.Native.String.{◌++◌ as text_append}

unfoldable pub is_valid_project_name : String → Bool
is_valid_project_name name =
    if name == "" || ltb 255 (text_length name) then false else all_chars valid_name_char name

unfoldable pub normalize_project_path : String → Result String
normalize_project_path raw =
    let c = clean (trim_space raw) in
    if trim_space raw == ""
    then err rejected
    else if c == "."
    then err rejected
    else if has_prefix "/" c
    then err rejected
    else if c == ".." || has_prefix "../" c
    then err rejected
    else ok c

-- A path that stands next to the same one or to one below it.
abbrev adjacent_overlap : List String → Bool
adjacent_overlap [] = false
adjacent_overlap (prev ∷ []) = false
adjacent_overlap (prev ∷ curr ∷ rest) =
    let later = adjacent_overlap (curr ∷ rest) in
    prev == curr || has_prefix (text_append prev "/") curr || later

unfoldable pub validate_no_overlapping_project_paths : List String → Result {0} Unit
validate_no_overlapping_project_paths paths =
    if ltb (length paths) 2
    then ok tt
    else if adjacent_overlap (sort_strings paths)
    then err rejected
    else ok tt

abbrev pub cons_result : {A : Type 0} → Result A → Result (List A) → Result (List A)
cons_result (err e) rest = err e
cons_result (ok x) (err e) = err e
cons_result (ok x) (ok xs) = ok (x ∷ xs)

abbrev pub with_path : MonorepoProjectConfig → Result String → Result MonorepoProjectConfig
with_path p (err e) = err e
with_path p (ok path) = ok (record p { path = path })

abbrev pub checked_part : MonorepoProjectConfig → Result MonorepoProjectConfig
checked_part p =
    if is_valid_project_name p.name
    then with_path p (normalize_project_path p.path)
    else err rejected

abbrev pub checked_parts : List MonorepoProjectConfig → Result (List MonorepoProjectConfig)
checked_parts [] = ok []
checked_parts (p ∷ ps) = cons_result (checked_part p) (checked_parts ps)

abbrev pub paths_of : List MonorepoProjectConfig → List String
paths_of [] = []
paths_of (p ∷ ps) = p.path ∷ paths_of ps

-- The project that a part of a monorepo becomes.
abbrev pub part_project : ProjectConfig → MonorepoProjectConfig → ProjectConfig
part_project parent p = record {
  name = p.name;
  url = parent.url;
  branch = parent.branch;
  ignore_paths = or_else p.ignore_paths parent.ignore_paths;
  schedule = if p.schedule == "" then parent.schedule else p.schedule;
  cancel_inflight_on_new_trigger = parent.cancel_inflight_on_new_trigger;
  git = parent.git;
  projects = [];
  root_path = p.path;
  clone_url = parent.url;
}

abbrev pub part_projects : ProjectConfig → List MonorepoProjectConfig → List ProjectConfig
part_projects parent [] = []
part_projects parent (p ∷ ps) = part_project parent p ∷ part_projects parent ps

abbrev pub if_disjoint :
    ProjectConfig → List MonorepoProjectConfig → Result {0} Unit → Result (List ProjectConfig)
if_disjoint parent ps (err e) = err e
if_disjoint parent ps (ok tt) = ok (part_projects parent ps)

abbrev pub expand_parts :
    ProjectConfig → Result (List MonorepoProjectConfig) → Result (List ProjectConfig)
expand_parts parent (err e) = err e
expand_parts parent (ok ps) =
    if_disjoint parent ps (validate_no_overlapping_project_paths (paths_of ps))

unfoldable pub expand_project_projects : ProjectConfig → Result (List ProjectConfig)
expand_project_projects parent = expand_parts parent (checked_parts parent.projects)

-- The expanded projects so far, and the names that were seen.
pub record Expansion : Type 0 where
  pub expanded : List ProjectConfig
  pub seen : List String

unfoldable pub append_expanded_project : ProjectConfig → Expansion → Result Expansion
append_expanded_project p x =
    if elem p.name x.seen
    then err rejected
    else ok (record { expanded = x.expanded ++ (p ∷ []); seen = p.name ∷ x.seen })

abbrev pub and_then : {A B : Type 0} → Result A → (A → Result B) → Result B
and_then (err e) f = err e
and_then (ok a) f = f a

abbrev pub append_all : List ProjectConfig → Expansion → Result Expansion
append_all [] x = ok x
append_all (p ∷ ps) x = and_then (append_expanded_project p x) (append_all ps)

-- What one entry of the configuration becomes.
unfoldable pub expand_project : ProjectConfig → Result (List ProjectConfig)
expand_project p =
    if not (is_valid_project_name p.name)
    then err rejected
    else if trim_space p.url == ""
    then err rejected
    else if ltb 0 (length p.projects)
    then expand_project_projects p
    else ok (record p { projects = []; root_path = ""; clone_url = p.url } ∷ [])

abbrev pub expand_all : List ProjectConfig → Expansion → Result Expansion
expand_all [] x = ok x
expand_all (p ∷ ps) x =
    and_then (and_then (expand_project p) (λ qs. append_all qs x)) (expand_all ps)

abbrev pub finished : Result Expansion → Result (List ProjectConfig)
finished (err e) = err e
finished (ok x) = ok x.expanded

unfoldable pub expand_monorepos : List ProjectConfig → Result (List ProjectConfig)
expand_monorepos projects = finished (expand_all projects (record { expanded = []; seen = [] }))
