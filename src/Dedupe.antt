-- ===== src/Dedupe.antt =====
-- `RequestDeduplicator` of src/astrameter/request_dedupe.py, with the clock's reading as an argument.
mod Defs
mod Window
mod Purge
unfoldable pub use Defs.*
unfoldable pub use Window.*
pub use Purge.*
