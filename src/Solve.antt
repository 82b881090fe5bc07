-- ===== src/Solve.antt =====
-- internal/solve: the routes, matches and solutions of an auction.
pub mod Context
pub mod Gas
pub mod Liquidity
pub mod Pools
pub mod Route
pub mod MinInput
pub mod Order
pub mod Profit
pub mod RouteOrder
pub mod Cow
pub mod Engine
mod Examples
