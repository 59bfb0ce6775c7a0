-- ===== src/Bmg.antt =====
-- pkg/bmg: rendering the manifests of a backup by Backup Maker Generator, and applying them.
pub mod State
pub mod Manifests
pub mod Definition
pub mod Render
pub mod Apply
