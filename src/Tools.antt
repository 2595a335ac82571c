-- ===== src/Tools.antt =====
-- The tools that the language model calls on behalf of the Dungeon Master.
pub mod Services
pub mod Coins
pub mod Actions
pub mod Items
pub mod Strikes
pub mod Vendor
pub mod Call
pub mod Scoped
pub mod Isolated
pub mod Confined
pub mod Fights
pub mod Trades
pub mod Correct
pub mod Early
pub mod Untouched
pub mod Failures
pub mod Secure
mod Tests
