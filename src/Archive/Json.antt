-- ===== src/Archive/Json.antt =====
-- include/cpph/refl/archive: the text format JSON.
pub mod Writer
pub mod Text
pub mod Printing
pub mod Documents
pub mod Rendering
pub mod Reader
mod Tests
