-- ===== src/Tests.antt =====
-- The theorems at concrete inputs: a small cluster, a disk and a key generator that can be run.
pub mod Samples
pub mod Locks
pub mod Redis
pub mod Resources
pub mod Keys
pub mod Rendering
pub mod Defining
pub mod Controlling
pub mod Copying
pub mod Reconciling
pub mod Resting
pub mod Starting
pub mod Tracking
pub mod Story
pub mod Informing
pub mod Requesting
