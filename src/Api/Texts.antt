-- ===== src/Api/Texts.antt =====
-- internal/api/helpers.go: the texts of the pages.
use Prim.Native.Char.{code}
use Prim.Native.String.{◌++◌}
use driftd.Prelude.{
  ℕ, ◌-◌, ◌/◌, ltb, nat_eq, String, ◌==◌, ◌||◌, if◌then◌else◌, has_prefix, trim_prefix,
}
use driftd.Queue.Keys.{decimal}
use driftd.Projects.Urls.{trim_suffix}

-- strings.TrimLeft with blanks and tabs
unfoldable pub trim_indent : String → String
trim_indent String.[] = ""
trim_indent (String.◌∷◌ c s) =
    let rest = trim_indent s in
    if nat_eq (code c) 32 || nat_eq (code c) 9 then rest else String.◌∷◌ c s

unfoldable pub plan_line_class : String → String
plan_line_class line =
    let trimmed = trim_indent line in
    if has_prefix "+" trimmed
    then (if has_prefix "+++" trimmed then "" else "plan-add")
    else if has_prefix "-" trimmed
    then (if has_prefix "---" trimmed then "" else "plan-remove")
    else if has_prefix "~" trimmed
    then "plan-change"
    else ""

-- The page of a commit behind a prefix of the host.
abbrev hosted : String → String → String → String → String
hosted host path between sha = host ++ (path ++ (between ++ sha))

unfoldable pub commit_url : String → String → String
commit_url project_url sha =
    let clean = trim_suffix ".git" project_url in
    if project_url == "" || sha == ""
    then ""
    else if has_prefix "git@github.com:" clean
    then hosted "https://github.com/" (trim_prefix "git@github.com:" clean) "/commit/" sha
    else if has_prefix "git@gitlab.com:" clean
    then hosted "https://gitlab.com/" (trim_prefix "git@gitlab.com:" clean) "/-/commit/" sha
    else if has_prefix "https://github.com/" clean
    then clean ++ ("/commit/" ++ sha)
    else if has_prefix "http://github.com/" clean
    then hosted "https://github.com/" (trim_prefix "http://github.com/" clean) "/commit/" sha
    else if has_prefix "https://gitlab.com/" clean
    then clean ++ ("/-/commit/" ++ sha)
    else if has_prefix "http://gitlab.com/" clean
    then hosted "https://gitlab.com/" (trim_prefix "http://gitlab.com/" clean) "/-/commit/" sha
    else ""

-- A number of units, with their name in the singular.
abbrev ago : ℕ → String → String
ago n unit =
    if nat_eq n 1 then "1 " ++ (unit ++ " ago") else decimal n ++ (" " ++ (unit ++ "s ago"))

-- In seconds; a time that is not in the past is "just now", 0 is the zero time.
unfoldable pub time_ago : ℕ → ℕ → String
time_ago now t =
    let d = now - t in
    if nat_eq t 0
    then "never"
    else if ltb d 60
    then "just now"
    else if ltb d 3600
    then ago (d / 60) "minute"
    else if ltb d 86_400
    then ago (d / 3600) "hour"
    else ago (d / 86_400) "day"
