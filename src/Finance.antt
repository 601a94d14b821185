-- ===== src/Finance.antt =====
-- finance/engine.py with common/money.py, common/rates.py, common/mortgage.py and
-- finance/transfer_tax.py: the deterministic underwriting of a property.
mod Money
mod Rates
mod Validation
mod Valuation
mod Debt
mod Liabilities
mod Engine
mod Underwrite
pub mod ValueOrder
pub mod Rounded
unfoldable pub use Money.*
unfoldable pub use Rates.*
unfoldable pub use Validation.*
unfoldable pub use Valuation.*
unfoldable pub use Debt.*
unfoldable pub use Liabilities.*
unfoldable pub use Engine.*
unfoldable pub use Underwrite.*
