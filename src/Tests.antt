-- ===== src/Tests.antt =====
-- The theorems at concrete inputs, one module for each part of the program.
mod World
mod Elections
mod Methods
mod Reconcilers
mod Generated
mod Resources
mod Server
mod Rollouts
mod Entry
