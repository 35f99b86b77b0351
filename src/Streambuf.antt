-- ===== src/Streambuf.antt =====
-- include/cpph/streambuf: stream buffers that stand before another.
pub mod Base64
pub mod Base64Writes
pub mod Base64Reads
mod Tests
