-- ===== src/Reconcile.antt =====
-- The two reconcilers (internal/controller), from one request to its result.
pub mod Base
pub mod Lifecycle
pub mod Rollout
pub mod Dragonfly
