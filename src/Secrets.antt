-- ===== src/Secrets.antt =====
-- internal/secrets: the stores of projects and of integrations. Both keep a map in memory and write
-- all of it to a file, by a temporary file and a rename, so a write replaces the file or leaves
-- it; `writes` says how the next ones end, and after its last entry all succeed.
pub mod Files
pub mod Projects
pub mod Integrations
pub mod Keys
pub mod Encryption
pub mod Credentials
