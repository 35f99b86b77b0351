-- ===== src/Archive/Msgpack.antt =====
-- include/cpph/refl/archive: the msgpack format.
pub mod Codes
pub mod Writer
pub mod Reader
pub mod Numbers
pub mod Integers
pub mod Headers
pub mod RoundTrip
pub mod Arrays
pub mod Leaves
pub mod Documents
pub mod Skipping
pub mod Nested
mod SkipTests
pub mod Edges
pub mod Tests
