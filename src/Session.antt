-- ===== src/Session.antt =====
-- master/internal/session: which connections a campaign has, and how a message reaches them.
pub mod Hub
pub mod Delivery
pub mod Registry
mod Tests
