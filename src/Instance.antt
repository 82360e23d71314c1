-- ===== src/Instance.antt =====
-- The methods of `DragonflyInstance` (internal/controller/dragonfly_instance.go).
pub mod Queries
pub mod Roles
pub mod Status
pub mod Replication
pub mod Rollout
pub mod Objects
pub mod Resources
pub mod Footprint
