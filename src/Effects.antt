-- ===== src/Effects.antt =====
-- Errors, and what the operator asks of the API server and of the Dragonfly pods: the calls of the
-- Kubernetes client and of the Redis client, which are not part of this repository.
pub mod Errors
pub mod Calls
pub mod Actions
pub mod Within
pub mod Changes
pub mod Scripts
pub mod Clients
pub mod Outcome
pub mod Returns
