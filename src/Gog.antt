-- ===== src/Gog.antt =====
-- internal/gog/gog.go: what GOG adds to the metadata of an installer, in the parts below.
pub mod Call
pub mod Constraint
pub mod Parts
pub mod Apply
pub mod Print
pub mod Slots
pub mod KeptParts
pub mod Kept
