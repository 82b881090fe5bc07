-- ===== src/Api.antt =====
-- internal/api: the wire types and their validation.
pub mod Encode
pub mod Notification
pub mod Auction
mod Examples
