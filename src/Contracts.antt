-- ===== src/Contracts.antt =====
-- contracts/models.py: the records that the packages exchange, with Python's dates and UUIDs.
mod Dates
mod Enums
mod Records
mod Assumptions
unfoldable pub use Dates.*
pub use Enums.*
pub use Records.*
pub use Assumptions.*
