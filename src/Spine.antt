-- ===== src/Spine.antt =====
-- The SPINE layer, src/spine: the links between local and remote features.
pub mod Address
pub mod Device
pub mod Discovery
pub mod FeatureLink
pub mod Message
pub mod Manager
pub mod FeatureLocal
pub mod Function
pub mod LocalDevice
pub mod Pending
pub mod Sender
pub mod Tests
