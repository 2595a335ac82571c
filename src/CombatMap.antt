-- ===== src/CombatMap.antt =====
-- The package master/internal/combatmap.
pub mod Grid
pub mod Movement
pub mod State
pub mod Generator
mod Tests
