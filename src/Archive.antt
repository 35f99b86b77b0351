-- ===== src/Archive.antt =====
-- include/cpph/refl/archive: the contexts of a writer, and the formats msgpack and JSON.
pub mod Run
pub mod WriteContext
pub mod Msgpack
pub mod Json
