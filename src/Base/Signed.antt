-- ===== src/Base/Signed.antt =====
-- Signed integers over the native numbers, under the library's names (its ℤ stands on the unary ℕ).
-- `PedSector` is a `long long`; C leaves signed overflow undefined, so a run without it computes
-- these integers. `/` and `%` of C round towards zero.
mod Defs
mod Laws
mod Ring
mod Quotient
unfoldable pub use Defs.*
pub use Laws.*
pub use Ring.*
pub use Quotient.*
