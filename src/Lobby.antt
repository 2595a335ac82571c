-- ===== src/Lobby.antt =====
-- registry/internal/lobby: the public directory of open campaigns.
pub mod Store
pub mod Handlers
pub mod Keyed
pub mod Access
pub mod Lifecycle
pub mod Public
mod Tests
