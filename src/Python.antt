-- ===== src/Python.antt =====
-- What the program takes from Python's run time and the model does not define: `decimal.Decimal`
-- (finite values under one context precision) and `str.casefold`.
--
-- A decimal is a value of any type with these operations. `<`, `>`, `==`, `max` and `min` are
-- written from `<=` as Python has them: `max` and `min` keep the first of two equal values.
mod Ops
pub mod Laws
pub mod Order
pub mod Fixed
pub use Ops.*
