-- ===== src/Strategies.antt =====
-- strategies/engine.py: the six strategies over an underwriting, and the offers.
mod Balance
mod Costs
mod Sale
mod Rental
mod Foreclosure
mod Months
mod Offers
mod ShortSale
mod Outcomes
pub mod Reports
pub mod Deductions
pub mod Steps
pub mod Proceeds
pub mod Prices
pub mod Errors
pub mod Loans
pub mod Juniors
pub mod Grid
pub mod Sorted
unfoldable pub use Balance.*
unfoldable pub use Costs.*
unfoldable pub use Sale.*
unfoldable pub use Rental.*
unfoldable pub use Foreclosure.*
unfoldable pub use Months.*
unfoldable pub use Offers.*
unfoldable pub use ShortSale.*
