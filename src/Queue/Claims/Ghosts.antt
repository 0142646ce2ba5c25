-- ===== src/Queue/Claims/Ghosts.antt =====
-- A work item is taken by one worker, and what is no longer pending is never taken: the script
-- of Dequeue and one round of its loop.
use driftd.Redis.{Redis}
