-- ===== src/Api.antt =====
-- pkg/apis/riotkit/v1alpha1: the custom resources and what their methods compute.
pub mod Specs
pub mod ChildReference
pub mod ScheduledBackup
pub mod RequestedBackupAction
pub mod Template
pub mod DeepCopy
pub mod Register
