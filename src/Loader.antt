-- ===== src/Loader.antt =====
-- internal/loader/loader.go: where the streams of an installer begin.
pub mod Table
pub mod Resource
pub mod Locate
pub mod Encode
pub mod Bounds
