-- ===== src/Factory.antt =====
-- pkg/factory: fetching the custom resources, and filling their aggregates from the secrets and the
-- template that they refer to.
pub mod Hydrate
pub mod Aggregates
pub mod Fetching
