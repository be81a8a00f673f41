-- ===== src/Text.antt =====
-- Byte strings, and what the program uses of Go's packages strings and unicode.
mod Search
pub mod Order
unfoldable pub use Search.*
