-- ===== src/Api.antt =====
-- The package itself: options.go, types.go, archive.go, errors.go and extractor.go.
pub mod Settings
pub mod Archive
pub mod Errors
pub mod Paths
pub mod Accounts
pub mod Opened
