-- ===== src/Tests.antt =====
-- The tests: each theorem of the results that has conditions, applied to concrete data.
mod Client
mod Schedule
mod Pages
mod Configs
mod Fleet
mod Buckets
mod Balancers
mod Registries
mod Clusters
mod Inventory
mod Holdings
mod Checks
mod Pools
