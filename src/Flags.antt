-- ===== src/Flags.antt =====
-- flags/store.py and flags/workflow.py: the findings of a recomputation and the answers of persons,
-- on the flags that are kept for review.
mod Store
mod Sync
mod Persist
mod Resolve
pub mod Counts
pub mod Rows
pub mod Tables
pub mod Findings
pub mod Settled
pub mod Single
pub mod Answers
pub mod Added
pub mod Resolved
unfoldable pub use Store.*
unfoldable pub use Sync.*
unfoldable pub use Persist.*
unfoldable pub use Resolve.*
