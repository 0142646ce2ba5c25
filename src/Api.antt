-- ===== src/Api.antt =====
-- internal/api: who may do what, how often, and what a push on GitHub starts.
pub mod Requests
pub mod Auth
pub mod Limits
pub mod Webhooks
pub mod Settings
pub mod Dto
pub mod Reads
pub mod Texts
pub mod Streams
pub mod Repos
pub mod Scans
pub mod Orchestrated
