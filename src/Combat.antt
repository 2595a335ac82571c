-- ===== src/Combat.antt =====
-- master/internal/server: the turn order of a combat and who may act.
pub mod Engine
pub mod Turns
pub mod Ordering
pub mod Orders
pub mod Seated
mod Tests
