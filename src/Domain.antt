-- ===== src/Domain.antt =====
-- pkg/domain: the aggregates of fetched objects, the interface `Renderable` that both implement, and
-- which kinds of resources each of them owns.
pub mod Aggregate
pub mod ResourceTypes
