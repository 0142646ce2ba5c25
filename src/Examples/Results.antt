-- ===== src/Examples/Results.antt =====
-- The theorems on the results of plans, at concrete data.
use driftd.Prelude.{
  pos, true, false, none, some, [], ◌∷◌, ◌==◌, ◌≡◌, refl, if◌then◌else◌, ok, err, external, after,
  result, text_length, clean, has_prefix, split_at, after_prefix, contains, after_first,
}
use driftd.Config.Projects.{is_valid_project_name}
use driftd.Storage.{
  RunResult, plain, unavailable, Codec, Disk, save_result, get_result, validated,
  is_safe_stack_path, encode_plan_output, decode_plan_output,
}
use driftd.Storage.Results.{get_result-torn}
use driftd.Runner.{
  exit_code, Surroundings, planned_result, run, run_plan, classify, parse_plan_summary,
  find_summary, should_retry_with_isolated_cache, clean_terragrunt_output,
}
use driftd.Runner.Outcome.{run-get_result}

abbrev old_status : RunResult
old_status = record {
  drifted = false;
  added = pos 0;
  changed = pos 0;
  destroyed = pos 0;
  plan_output = "";
  error = "";
  run_at = 1;
}

abbrev new_status : RunResult
new_status = record {
  drifted = true;
  added = pos 2;
  changed = pos 1;
  destroyed = pos 0;
  plan_output = "";
  error = "";
  run_at = 9;
}

-- JSON as a table of the results in question.
abbrev codec : Codec
codec = record {
  encode_path = λ p. p;
  marshal = λ r. if r.drifted then "new" else "old";
  unmarshal = λ t. if t == "new" then some new_status else some old_status;
}

abbrev disk : Disk
disk = record {
  files = ("d/results/p/s/status.json", "old") ∷ ("d/results/p/s/plan.txt", "No changes.") ∷ [];
  fails = [];
}

named : validated "p" "s" ≡ ok tt
unfolding validated is_valid_project_name is_safe_stack_path text_length clean has_prefix split_at
named = refl

get_result-torn_example :
    (result
        (save_result codec unavailable "d" "p" "s"
          (record new_status { plan_output = "Plan: 2 to add" }))
        disk
      ≡ err external)
    × (get_result codec unavailable "d" "p" "s" (
          after
            (save_result codec unavailable "d" "p" "s"
              (record new_status { plan_output = "Plan: 2 to add" }))
            disk)
        ≡ ok (record new_status {
          plan_output = if has_prefix "enc:v1:" "No changes." then "" else "No changes.";
        }))
get_result-torn_example =
    get_result-torn codec "d" "p" "s" "No changes."
      (record new_status { plan_output = "Plan: 2 to add" }) disk refl named refl refl

-- A plan with drift: exit code 2 and a summary.
abbrev surroundings : Surroundings
surroundings = record {
  codec = codec;
  encryption = plain;
  data_dir = "d";
  now = 9;
  redact = λ t. t;
  describe = λ e. "plan failed";
  refusal = none;
  tool = "terraform";
  once = λ b. ("Plan: 2 to add, 1 to change, 0 to destroy", exit_code 2);
}

safe : is_safe_stack_path "s" ≡ true
unfolding is_safe_stack_path clean has_prefix split_at
safe = refl

planned_summary :
    planned_result surroundings
    ≡ record new_status { plan_output = "Plan: 2 to add, 1 to change, 0 to destroy" }
unfolding planned_result run_plan classify parse_plan_summary find_summary after_prefix contains
    after_first should_retry_with_isolated_cache clean_terragrunt_output
planned_summary = refl

read_back :
    codec.unmarshal (codec.marshal (planned_result surroundings))
    ≡ some (record (planned_result surroundings) { plan_output = "" })
read_back = rw planned_summary refl

output_back :
    decode_plan_output plain (planned_result surroundings).plan_output
    ≡ (planned_result surroundings).plan_output
unfolding decode_plan_output after_prefix
output_back = rw planned_summary refl

output_kept :
    encode_plan_output plain (planned_result surroundings).plan_output
    ≡ ok (planned_result surroundings).plan_output
unfolding encode_plan_output
output_kept = refl

run-get_result_example :
    ((run surroundings "p" "s" disk).0 ≡ (planned_result surroundings, ok tt))
    × (get_result codec plain "d" "p" "s" (run surroundings "p" "s" disk).1
        ≡ ok (run surroundings "p" "s" disk).0.0)
run-get_result_example =
    run-get_result surroundings "p" "s" (planned_result surroundings).plan_output disk refl safe
      named read_back output_kept output_back refl
