-- ===== src/Crypto.antt =====
-- internal/crypto/crypto.go: checksums, the password tests and the two stream ciphers.
pub mod Arc4
pub mod Primitives
pub mod Checksums
pub mod Nonce
pub mod Password
