-- ===== src/Prelude/Dict.antt =====
-- Dictionaries: reading and writing, and loops over entries.
mod Base
mod Entries
unfoldable pub use Base.*
pub use Entries.*
