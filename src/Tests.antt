-- ===== src/Tests.antt =====
-- The theorems applied to concrete inputs.
pub mod Bench
pub mod Control
pub mod Lights
pub mod Motors
pub mod Pneumatic
pub mod Messages
pub mod Tasks
pub mod Settings
pub mod Numbers
pub mod Failing
pub mod Signals
pub mod Whole
pub mod World
pub mod Station
pub mod Pacing
pub mod Turning
