-- ===== src/Amm.antt =====
-- internal/amm: exact-integer quoting of the liquidity that the driver ships with an auction.
pub mod U256
pub mod Pool
pub mod Decimal
pub mod Constant
pub mod Swap
pub mod TickMath
pub mod Concentrated
pub mod Stable
pub mod Quote
pub mod Examples
