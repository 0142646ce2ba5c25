-- ===== src/Api/Reads.antt =====
-- internal/api/handlers_api.go: the requests that only read. What they call of internal/queue is an argument.
use driftd.Prelude.{
  ℕ, String, Option, none, some, List, [], ◌∷◌, ◌==◌, not, if◌then◌else◌, Result, ok, err, Error,
  scan_not_found, stack_scan_not_found, Action, pure, examine,
}
use driftd.Config.Projects.{is_valid_project_name}
use driftd.Queue.Types.{Scan, StackScan}
use driftd.Api.Dto.{ApiScan, ApiStackScan, to_api_scan, to_api_stack_scan}

-- The ping of Redis.
abbrev pub health_status : Result {0} Unit → ℕ
health_status (ok tt) = 200
health_status (err e) = 503

abbrev pub api_stack_scans : List StackScan → List ApiStackScan
api_stack_scans [] = []
api_stack_scans (ss ∷ l) = to_api_stack_scan ss ∷ api_stack_scans l

abbrev pub stack_scan_status : Error → ℕ
stack_scan_status stack_scan_not_found = 404
stack_scan_status _ = 500

abbrev pub scan_status : Error → ℕ
scan_status scan_not_found = 404
scan_status _ = 500

module _ {S : Type 0} where
  unfoldable pub handle_health : Action S Unit → Action S ℕ
  handle_health ping = examine ping (λ e. pure (health_status (err e))) (λ _. pure 200)

  unfoldable pub handle_get_stack_scan :
      (String → Action S StackScan) → String → Action S (ℕ × Option ApiStackScan)
  handle_get_stack_scan get id =
      examine (get id) (λ e. pure (stack_scan_status e, none))
        λ ss. pure (200, some (to_api_stack_scan ss))

  unfoldable pub handle_list_project_stack_scans :
      (String → ℕ → Action S (List StackScan)) → String → Action S (ℕ × List ApiStackScan)
  handle_list_project_stack_scans list name =
      if not (is_valid_project_name name)
      then pure (400, [])
      else (examine (list name 50) (λ e. pure (500, [])) λ l. pure (200, api_stack_scans l))

  unfoldable pub handle_get_scan : (String → Action S Scan) → String → Action S (ℕ × Option ApiScan)
  handle_get_scan get id =
      if id == ""
      then pure (400, none)
      else (examine (get id) (λ e. pure (scan_status e, none))
          λ scan. pure (200, some (to_api_scan scan)))
