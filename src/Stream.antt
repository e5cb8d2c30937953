-- ===== src/Stream.antt =====
-- internal/stream: the decoding of the data chunks, in the parts below.
pub mod Budget
pub mod Filter
pub mod Reader
pub mod Slice
pub mod ReadAll
pub mod Segment
pub mod Assembly
pub mod Groups
pub mod Chunk
pub mod Extract
