-- ===== src/Common.antt =====
-- The platform layer, src/common.
pub mod Countdown
pub mod Duration
pub mod Error
pub mod Timer
pub mod Queue
pub mod Text
pub mod Tests
