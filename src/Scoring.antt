-- ===== src/Scoring.antt =====
-- scoring/engine.py: the deterministic score of a property. Each child is one of its functions.
mod Configuration
mod Numbers
mod Recommend
mod Opportunity
mod Events
mod Distress
mod Confidence
mod Risk
mod Engine
pub mod Bounds
pub mod Gates
pub mod Best
pub mod Viable
unfoldable pub use Configuration.*
unfoldable pub use Numbers.*
unfoldable pub use Recommend.*
unfoldable pub use Opportunity.*
unfoldable pub use Events.*
unfoldable pub use Distress.*
unfoldable pub use Confidence.*
unfoldable pub use Risk.*
unfoldable pub use Engine.*
