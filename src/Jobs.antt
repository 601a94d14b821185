-- ===== src/Jobs.antt =====
-- jobs/queue.py: the job queue in memory.
mod Queue
pub mod Invariant
pub mod Progress
unfoldable pub use Queue.*
