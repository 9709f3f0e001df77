-- ===== src/Ship.antt =====
-- The SHIP layer, src/ship.
pub mod Types
pub mod State
pub mod Connection
