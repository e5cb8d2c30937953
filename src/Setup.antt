-- ===== src/Setup.antt =====
-- internal/setup/setup.go: the metadata streams of a setup file, in the parts below.
pub mod Cursor
pub mod Text
pub mod Version
pub mod Block
pub mod Flags
pub mod Header
pub mod Entries
pub mod PrimaryStream
pub mod ReadVersion
pub mod Decimals
pub mod VersionTrip
pub mod Parse
pub mod WholeStream
pub mod TextTrip
pub mod Streams
pub mod Encrypted
pub mod DataEntries
pub mod Single
pub mod Supported
