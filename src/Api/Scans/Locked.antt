-- ===== src/Api/Scans/Locked.antt =====
-- A request for a scan of a project that is locked, from internal/api/handlers_api.go down to internal/queue.
use driftd.Prelude.{
  ◌<◌, String, true, false, some, ◌≡◌, ◌⊎◌, ap, ◌∙◌, Result, ok, err, project_locked, result,
  examine-ok, examine-err, >>=-err, pure,
}
use driftd.Redis.{Redis}
use driftd.Config.{ProjectConfig, cancel_inflight_enabled}
use driftd.Config.Projects.{is_valid_project_name}
use driftd.Queue.Types.{StackScan, Scan}
use driftd.Queue.Store.{Db, online}
use driftd.Queue.Lookups.{get_active_scan}
use driftd.Orchestrate.{trigger_priority, acquire_scan}
use driftd.Orchestrate.Lifecycle.{Request, start_scan}
use driftd.Orchestrate.Priority.{acquire_scan-locked, read_active}
use driftd.Api.Dto.{to_api_scan}
use driftd.Api.Scans.{
  ScanRequest, json, blank, asked, start_and_enqueue, scan_found, handle_scan_repo,
}
use driftd.Api.Orchestrated.{Surroundings, queue_scanner, read_config}

module _ {r : Redis StackScan} where
  start_and_enqueue-locked :
      (a : Surroundings) (cfg : ProjectConfig) (q : Request) (d : Db r)
      → acquire_scan
          (read_config cfg)
          a.lock_ttl
          q.trigger
          q.commit
          q.actor
          (a.clock cfg)
          (online d)
        ≡ (err project_locked, online d)
      → start_and_enqueue (queue_scanner a) cfg q (online d) ≡ (err project_locked, online d)
  unfolding start_and_enqueue start_scan
  start_and_enqueue-locked a cfg q d h = >>=-err _ _ (>>=-err _ _ h)

  -- While a scan holds the lock of a configured project with a valid name, the active scan can be
  -- read and every call is served: if scans in flight are not to be canceled, or the active scan's
  -- trigger comes before the requested one, a request for a scan is answered with 409 and the
  -- active scan, and Redis is left as it was.
  pub handle_scan_repo-locked :
      (a : Surroundings) (config : String → Result ProjectConfig) (cfg : ProjectConfig)
      (q : ScanRequest) (d : Db r) (active : Scan) {owner : String}
      → is_valid_project_name cfg.name ≡ true
      → config cfg.name ≡ ok cfg
      → r.ids.get d.locks cfg.name ≡ some owner
      → result (get_active_scan cfg.name) (online d) ≡ ok active
      → (cancel_inflight_enabled cfg ≡ false)
        ⊎ (trigger_priority (asked q).trigger < trigger_priority active.trigger)
      → handle_scan_repo (queue_scanner a) config cfg.name (some q) (online d) ≡ (
        ok (
            json 409 (record blank {
              active_scan = some (to_api_scan active);
              error = "Project scan already in progress";
            })),
        online d,
      )
  unfolding handle_scan_repo pure
  handle_scan_repo-locked a config cfg q d active v c h ra w =
      let start = start_and_enqueue-locked a cfg (asked q) d (
        acquire_scan-locked (read_config cfg) a.lock_ttl (asked q).trigger q.commit q.actor
          (a.clock cfg) d active h ra w) in
      let read : get_active_scan cfg.name (online d) ≡ (ok active, online d) =
        λ i. (ra i, read_active d cfg.name i) in
      rw v (
        ap (λ x. scan_found (queue_scanner a) cfg.name (some q) x (online d)) c
        ∙ examine-err _ _ _ start
        ∙ examine-ok _ _ _ read)
