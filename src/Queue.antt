-- ===== src/Queue.antt =====
-- internal/queue: the scans, their work items and the locks that driftd keeps in Redis.
pub mod Types
pub mod Store
pub mod Keys
pub mod Events
pub mod Locks
pub mod Scans
pub mod Endings
pub mod Lookups
pub mod Transitions
pub mod Marks
pub mod StackScans
pub mod Claims
pub mod Outcomes
pub mod Batches
pub mod Renewal
pub mod Recovery
pub mod Opened
pub mod Keeps
pub mod Ownership
