-- ===== src/Ranking.antt =====
-- scoring/ranking.py: the ranks of scored properties.
mod Ranks
pub mod Order
unfoldable pub use Ranks.*
