-- ===== src/Queue/Opened.antt =====
-- For proofs and tests that run the queue's functions: `unfolding steps` opens them.
use driftd.Prelude.{◌>>=◌, ignore, cases}
use driftd.Queue.Store.{call}
use driftd.Queue.Events.{
  publish_scan_event, publish_stack_event, publish_event, scan_to_project_event,
  stack_to_project_event,
}
use driftd.Queue.Locks.{release_script, release_owned_lock, renew_script}
use driftd.Queue.Scans.{new_scan, create_pipeline, cancel_and_acquire, replace_pipeline}
use driftd.Queue.Endings.{fail_pipeline, cancel_pipeline}
use driftd.Queue.Transitions.{run_scan_transition}
use driftd.Queue.Marks.{project_name_for_scan, mark}
use driftd.Queue.StackScans.{
  get_stack_scan, save_stack_scan, remove_stack_scan_refs, enqueue_script, enqueue_atomic,
}

-- What every function of the queue runs through, below its commands.
unfoldable pub steps : Unit {0}
unfolding call ◌>>=◌ ignore cases publish_scan_event publish_stack_event publish_event
    scan_to_project_event stack_to_project_event release_owned_lock release_script renew_script
    create_pipeline replace_pipeline cancel_and_acquire fail_pipeline cancel_pipeline new_scan
    project_name_for_scan mark run_scan_transition get_stack_scan save_stack_scan
    remove_stack_scan_refs enqueue_script enqueue_atomic
steps = tt
