-- ===== src/Changes.antt =====
-- changes/diff.py: what is reported between two resolved records of a property.
mod Matching
mod Diff
pub mod Pairs
pub mod Silence
unfoldable pub use Matching.*
unfoldable pub use Diff.*
