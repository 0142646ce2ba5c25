-- ===== src/Queue/Events/Quiet.antt =====
-- A publication changes nothing but what is published.
use driftd.Prelude.{ℕ, String, ◌≡◌, List, ◌∷◌, ◌==◌, inl, inr, Bool-cases, ok, pure}
use driftd.Redis.{Redis}
use driftd.Queue.Types.{StackScan, ProjectEvent, ScanEvent}
use driftd.Queue.Store.{Db, online, call}
use driftd.Queue.Events.{stamped, publish_event, publish_scan_event}

module _ {r : Redis StackScan} where
  pub publish_event-online :
      (p : String) (now : ℕ) (e : ProjectEvent) (d : Db r)
      → (l : List ProjectEvent) × (publish_event p now e (online d)
          ≡ (ok tt, online (record d { published = l })))
  unfolding publish_event call pure
  publish_event-online p now e d = elim (Bool-cases (p == "")) [
    | inl h ↦ (d.published, rw h)
    | inr h ↦ (stamped p now e ∷ d.published, rw h)
  ]

  pub publish_scan_event-online :
      (p : String) (now : ℕ) (e : ScanEvent) (d : Db r)
      → (l : List ProjectEvent) × (publish_scan_event p now e (online d)
          ≡ (ok tt, online (record d { published = l })))
  unfolding publish_scan_event
  publish_scan_event-online p now e d = publish_event-online _ now _ d
