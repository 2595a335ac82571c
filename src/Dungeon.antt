-- ===== src/Dungeon.antt =====
-- master/internal/dungeon: levels and their generator.
pub mod Level
pub mod Shape
pub mod Generator
pub mod Extends
pub mod Rects
pub mod Rooms
pub mod Sound
pub mod Passages
pub mod Features
pub mod Chambers
pub mod Placing
pub mod Stairs
pub mod Joining
pub mod Arrival
pub mod Correct
pub mod Landing
mod Tests
