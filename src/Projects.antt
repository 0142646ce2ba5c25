-- ===== src/Projects.antt =====
-- internal/projects/provider.go and internal/secrets/convert.go: the projects of the configuration and those of the
-- store as one list, the configured ones first. A nil store or integration is none.
pub mod Conversion
pub mod Urls
pub mod Provider
pub mod Lookups
