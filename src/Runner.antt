-- ===== src/Runner.antt =====
-- internal/runner: a plan of one stack, from its path to the stored result. The commands and the file
-- system are parameters: what a run of a plan prints and how it ends, whether the project and the
-- stack are there. So is the redaction, a list of replacements by regular expressions.
pub mod Outcome
use driftd.Prelude.{
  ℕ, ℤ, pos, suc, zero, ◌+◌, ◌-◌, ◌*◌, String, Bool, true, false, Option, none, some, List, [], ◌∷◌,
  ◌==◌, ltb, leb, nat_eq, ltb_ℤ, not, ◌&&◌, ◌||◌, if◌then◌else◌, is_some, contains, after_first,
  after_prefix, trim_prefix, split_at, Result, ok, err, Error, Action, pure, raise, lift, examine,
  ◌>>=◌, ◌>>◌, has_suffix, to_lower,
}
use driftd.Storage.{RunResult, Codec, PlanEncryption, Disk, is_safe_stack_path, save_result}
use Prim.Native.Char.{code}
use Prim.Native.String.{◌++◌}

-- How a plan ends: exec's nil error, an ExitError with its code, or another error.
pub data PlanEnd : Type 0 where
  success : PlanEnd
  exit_code : ℕ → PlanEnd
  broken : PlanEnd

-- isProviderChecksumMismatch and shouldRetryWithIsolatedCache
unfoldable pub should_retry_with_isolated_cache : String → Bool
should_retry_with_isolated_cache output =
    (contains "Required plugins are not installed" output
      && contains "does not match any of the checksums recorded in the dependency lock file" output)
    || (contains "Failed to install provider" output && contains "text file busy" output)

abbrev pub join_lines : List String → String
join_lines [] = ""
join_lines (l ∷ []) = l
join_lines (l ∷ m ∷ ls) = let rest = join_lines (m ∷ ls) in l ++ ("\n" ++ rest)

-- The line without its log prefixes.
abbrev pub stripped : String → String
stripped line =
    trim_prefix "ERROR  "
      (trim_prefix "WARN   " (trim_prefix "INFO   " (trim_prefix "STDOUT " line)))

-- What is kept of a line: a log line only with Terraform's own text in it.
abbrev pub kept_of : String → String → Option String → Option String → Option String
kept_of raw line (some text) other = some text
kept_of raw line none (some text) = some text
kept_of raw line none none = if raw == line then some line else none

abbrev pub kept_line : String → Option String
kept_line raw =
    let line = stripped raw in
    kept_of raw line (after_first "terraform.planonly: " line) (after_first "terraform: " line)

abbrev push_line : Option String → List String → List String
push_line none ls = ls
push_line (some l) ls = l ∷ ls

abbrev pub kept_lines : List String → List String
kept_lines [] = []
kept_lines (l ∷ ls) = push_line (kept_line l) (kept_lines ls)

unfoldable pub clean_terragrunt_output : String → String → String
clean_terragrunt_output tool output =
    if tool == "terragrunt" then join_lines (kept_lines (split_at 10 output)) else output

abbrev joined_output : String → String → String
joined_output out out2 =
    if out2 == "" then out else out ++ ("\n\n--- retry (fresh plugin cache) ---\n\n" ++ out2)

-- The err == nil of runPlan.
abbrev is_success : PlanEnd → Bool
is_success success = true
is_success (exit_code n) = false
is_success broken = false

-- `once false` is the first attempt, with the shared plugin cache; `once true` the retry with its own.
unfoldable pub run_plan : String → (Bool → String × PlanEnd) → String × PlanEnd
run_plan tool once =
    let (out, end) = once false in
    let (out2, end2) = once true in
    if is_success end || not (should_retry_with_isolated_cache out)
    then (clean_terragrunt_output tool out, end)
    else (clean_terragrunt_output tool (joined_output out out2), end2)

abbrev is_digit : ℕ → Bool
is_digit c = leb 48 c && leb c 57

-- (\d+) and what follows it: the number so far, and whether there was a digit.
abbrev digits : ℕ → Bool → String → Option (ℕ × String)
digits n any String.[] = if any then some (n, "") else none
digits n any (String.◌∷◌ c s) =
    let rest = digits (10 * n + (code c - 48)) true s in
    if is_digit (code c) then rest else if any then some (n, String.◌∷◌ c s) else none

-- A number and a fixed text behind it.
abbrev number_then : String → Option String → Option (ℕ × String)
number_then suffix none = none
number_then suffix (some s) = elim (digits 0 false s) [
  | none ↦ none
  | some (n, rest) ↦ elim (after_prefix suffix rest) [ none ↦ none | some r ↦ some (n, r) ]
]

abbrev third : ℕ → ℕ → Option (ℕ × String) → Option (ℕ × ℕ × ℕ)
third a c none = none
third a c (some (d, rest)) = some (a, c, d)

abbrev second : ℕ → Option (ℕ × String) → Option (ℕ × ℕ × ℕ)
second a none = none
second a (some (c, rest)) = third a c (number_then " to destroy" (some rest))

abbrev first : Option (ℕ × String) → Option (ℕ × ℕ × ℕ)
first none = none
first (some (a, rest)) = second a (number_then " to change, " (some rest))

abbrev or_later : Option (ℕ × ℕ × ℕ) → Option (ℕ × ℕ × ℕ) → Option (ℕ × ℕ × ℕ)
or_later none later = later
or_later (some m) later = some m

-- planSummaryRegex: the first place where it matches
unfoldable pub find_summary : String → Option (ℕ × ℕ × ℕ)
find_summary String.[] = none
find_summary (String.◌∷◌ c s) =
    or_later (first (number_then " to add, " (after_prefix "Plan: " (String.◌∷◌ c s))))
      (find_summary s)

-- strconv.Atoi of digits, which answers the largest number for one that is too large
abbrev atoi : ℕ → ℕ
atoi n = if ltb 9_223_372_036_854_775_807 n then 9_223_372_036_854_775_807 else n

abbrev counts_of : Option (ℕ × ℕ × ℕ) → ℕ × ℕ × ℕ
counts_of none = (0, 0, 0)
counts_of (some (a, c, d)) = (atoi a, atoi c, atoi d)

unfoldable pub parse_plan_summary : String → ℕ × ℕ × ℕ
parse_plan_summary output =
    if contains "No changes." output || contains "no differences" output
    then (0, 0, 0)
    else counts_of (find_summary output)

abbrev pub positive : ℕ × ℕ × ℕ → Bool
positive (a, c, d) = ltb 0 a || ltb 0 c || ltb 0 d

-- A result without counts.
abbrev pub empty_result : ℕ → RunResult
empty_result now = record {
  drifted = false;
  added = pos 0;
  changed = pos 0;
  destroyed = pos 0;
  plan_output = "";
  error = "";
  run_at = now;
}

abbrev pub with_counts : Bool → ℕ × ℕ × ℕ → RunResult → RunResult
with_counts drifted (a, c, d) r = record r {
  drifted = drifted;
  added = pos a;
  changed = pos c;
  destroyed = pos d;
}

abbrev pub failed : String → RunResult → RunResult
failed text r = record r { error = text }

-- How Run reads the end of a plan; `describe` is the text of an error, which is not empty.
unfoldable pub classify : (PlanEnd → String) → String → PlanEnd → RunResult → RunResult
classify describe output success r =
    with_counts (positive (parse_plan_summary output)) (parse_plan_summary output) r
classify describe output (exit_code n) r =
    if nat_eq n 2
    then with_counts true (parse_plan_summary output) r
    else failed (describe (exit_code n)) r
classify describe output broken r = failed (describe broken) r

-- What Run finds around it.
pub record Surroundings : Type 0 where
  pub codec : Codec
  pub encryption : PlanEncryption
  pub data_dir : String
  pub now : ℕ
  pub redact : String → String
  pub describe : PlanEnd → String
  -- the text of an error of prepareProjectRoot, of a missing stack or of the policy
  pub refusal : Option String
  pub tool : String
  -- the attempts; without the tools' binaries they are broken and print nothing
  pub once : Bool → String × PlanEnd

unfoldable pub planned_result : Surroundings → RunResult
planned_result e =
    let (output, end) = run_plan e.tool e.once in
    classify e.describe output end (record (empty_result e.now) { plan_output = e.redact output })

-- The result beside the error of SaveResult, and the disk.
abbrev pub answer : RunResult → Result {0} Unit × Disk → (RunResult × Result {0} Unit) × Disk
answer r (x, s) = ((r, x), s)

abbrev pub planned :
    Surroundings → String → String → Option String → Disk → (RunResult × Result {0} Unit) × Disk
planned e project stack (some text) s = answer (failed text (empty_result e.now)) (ok tt, s)
planned e project stack none s =
    answer (planned_result e)
      (save_result e.codec e.encryption e.data_dir project stack (planned_result e) s)

-- What is refused before the plan is answered, and not stored.
unfoldable pub run : Surroundings → String → String → Disk → (RunResult × Result {0} Unit) × Disk
run e project stack s =
    if is_safe_stack_path stack
    then planned e project stack e.refusal s
    else answer (failed "invalid stack path" (empty_result e.now)) (ok tt, s)

unfoldable pub normalize_clone_depth : ℤ → ℤ
normalize_clone_depth depth = if ltb_ℤ (pos 0) depth then depth else pos 1

unfoldable pub is_terraform_state_file : String → Bool
is_terraform_state_file name = has_suffix ".tfstate" name || contains ".tfstate." name

unfoldable pub is_terraform_config_file : String → Bool
is_terraform_config_file path =
    has_suffix ".tf" (to_lower path) || has_suffix ".tf.json" (to_lower path)
