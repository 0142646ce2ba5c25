-- ===== src/Examples.antt =====
-- Runs of the model on a server in memory, at which the theorems apply.
pub mod Data
pub mod Scanning
pub mod Items
pub mod Around
pub mod Settings
pub mod Handlers
pub mod Requests
pub mod Stored
pub mod Results
