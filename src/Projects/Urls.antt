-- ===== src/Projects/Urls.antt =====
-- internal/projects/url.go: the canonical form of a clone URL. The parser of package net/url is a parameter: the
-- host and the path of a URL that it parses. A clone URL with a host that is not empty counts as one.
use Prim.Native.Char.{code}
use Prim.Native.String.{◌++◌}
use driftd.Prelude.{
  String, Option, none, some, ◌==◌, nat_eq, not, ◌||◌, if◌then◌else◌, trim_space, trim_prefix,
  to_lower, has_prefix, contains, clean,
}

-- strings.TrimSuffix with a suffix that is not empty
unfoldable pub trim_suffix : String → String → String
trim_suffix p String.[] = ""
trim_suffix p (String.◌∷◌ c s) =
    let rest = trim_suffix p s in if p == String.◌∷◌ c s then "" else String.◌∷◌ c rest

-- strings.SplitN with ":" and 2, for a text that has one: what stands before, and what behind.
unfoldable pub cut_colon : String → String × String
cut_colon String.[] = ("", "")
cut_colon (String.◌∷◌ c s) =
    let (before, behind) = cut_colon s in
    if nat_eq (code c) 58 then ("", s) else (String.◌∷◌ c before, behind)

-- What stands behind the last '@', or everything.
unfoldable pub after_last_at : String → String
after_last_at String.[] = ""
after_last_at (String.◌∷◌ c s) =
    let rest = after_last_at s in
    if contains "@" s then rest else if nat_eq (code c) 64 then s else String.◌∷◌ c s

-- path.Clean of the path without the slashes at its ends, without ".git"; "" for none.
unfoldable pub normalize_project_path : String → String
normalize_project_path raw =
    let p = trim_suffix "/" (trim_prefix "/" (trim_space raw)) in
    let c = clean p in
    if p == ""
    then ""
    else if c == "." || c == "/" || c == ".." || has_prefix "../" c
    then ""
    else trim_suffix ".git" c

-- host:path, without a scheme
unfoldable pub canonicalize_scp_url : String → Option String
canonicalize_scp_url raw =
    let (before, behind) = cut_colon raw in
    let host = to_lower (trim_space (after_last_at before)) in
    let path = normalize_project_path behind in
    if contains "://" raw || not (contains ":" raw)
    then none
    else if before == "" || behind == ""
    then none
    else if host == "" || path == ""
    then none
    else some (host ++ ("/" ++ path))

abbrev pub local_url : String → Option String
local_url trimmed =
    let c = clean trimmed in if c == "" || c == "." then none else some ("local:" ++ c)

abbrev pub parsed_url : String → Option (String × String) → Option String
parsed_url trimmed none = local_url trimmed
parsed_url trimmed (some (host, path)) =
    let p = normalize_project_path path in
    if host == ""
    then local_url trimmed
    else if p == ""
    then none
    else some (to_lower host ++ ("/" ++ p))

abbrev pub scp_or : (String → Option (String × String)) → String → Option String → Option String
scp_or parse trimmed (some c) = some c
scp_or parse trimmed none = parsed_url trimmed (parse trimmed)

unfoldable pub canonical_url : (String → Option (String × String)) → String → Option String
canonical_url parse raw =
    let trimmed = trim_space raw in
    if trimmed == "" then none else scp_or parse trimmed (canonicalize_scp_url trimmed)
