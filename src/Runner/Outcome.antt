-- ===== src/Runner/Outcome.antt =====
-- What the result of a run (internal/runner/runner.go) says, and where it is kept.
use driftd.Prelude.{
  ℕ, String, Bool, true, false, none, some, [], ◌==◌, ◌≡◌, refl, sym, ap, ◌∙◌, nat_eq, ok,
  Bool-cases, inl, inr,
}
use driftd.Storage.{
  Disk, is_safe_stack_path, save_result, get_result, encode_plan_output, decode_plan_output,
  validated,
}
use driftd.Storage.Results.{get_result-save_result}
use driftd.Runner.{
  PlanEnd, success, exit_code, broken, classify, parse_plan_summary, positive, empty_result,
  Surroundings, planned_result, run, planned, answer,
}

-- The exit codes 0 and 2 are results, everything else is an error.
abbrev readable : PlanEnd → Bool
readable success = true
readable (exit_code n) = nat_eq n 2
readable broken = false

-- The plan found changes.
abbrev changes : String → PlanEnd → Bool
changes output success = positive (parse_plan_summary output)
changes output (exit_code n) = nat_eq n 2
changes output broken = false

-- A result has no error exactly if the plan ended with code 0 or 2, and it is drifted exactly if
-- the code was 2, or 0 with a summary that counts a change; so an error is never a drift.
pub classify-outcome :
    (describe : PlanEnd → String) (output : String) (end : PlanEnd) (now : ℕ)
    → (describe end == "") ≡ false
    → (((classify describe output end (empty_result now)).error == "") ≡ readable end)
      × ((classify describe output end (empty_result now)).drifted ≡ changes output end)
unfolding classify
classify-outcome describe output success now d = (refl, refl)
classify-outcome describe output (exit_code n) now d = elim (Bool-cases (nat_eq n 2)) [
  | inl h ↦ rw h (refl, refl)
  | inr h ↦ rw h (d, refl)
]
classify-outcome describe output broken now d = (d, refl)

-- A run of a stack that is not refused, under a valid name and on a disk that does not fail, answers
-- without an error the result that GetResult reads afterwards. JSON and the encryption of the output
-- are to give back what they were given.
pub run-get_result :
    (e : Surroundings) (project stack raw : String) (s : Disk)
    → e.refusal ≡ none
    → is_safe_stack_path stack ≡ true
    → validated project stack ≡ ok tt
    → e.codec.unmarshal (e.codec.marshal (planned_result e))
      ≡ some (record (planned_result e) { plan_output = "" })
    → encode_plan_output e.encryption (planned_result e).plan_output ≡ ok raw
    → decode_plan_output e.encryption raw ≡ (planned_result e).plan_output
    → s.fails ≡ []
    → ((run e project stack s).0 ≡ (planned_result e, ok tt))
      × (get_result e.codec e.encryption e.data_dir project stack (run e project stack s).1
          ≡ ok (run e project stack s).0.0)
unfolding run
run-get_result e project stack raw s n p v j en de f =
    let (saved, read) =
      get_result-save_result e.codec e.encryption e.data_dir project stack raw (planned_result e) s
        j v en de f in
    let ran : run e project stack s
        ≡ answer (planned_result e)
            (save_result e.codec e.encryption e.data_dir project stack (planned_result e) s) =
      rw p (ap (λ o. planned e project stack o s) n) in
    (
      ap (λ x. x.0) ran ∙ ap (λ x. (planned_result e, x)) saved,
      ap (λ x. get_result e.codec e.encryption e.data_dir project stack x.1) ran
          ∙ read
          ∙ ap (λ x. ok x.0.0) (sym ran),
    )
