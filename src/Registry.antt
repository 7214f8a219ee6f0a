-- ===== src/Registry.antt =====
-- pkg/registry: the registries of pods, nodes and replica sets over the storage interface.
pub mod Pods
pub mod ReplicaSets
pub mod PathJoin
pub mod Nodes
