-- ===== src/Tests.antt =====
-- A small cluster to run the program on, tests, and the theorems at concrete inputs.
mod Cluster
mod Samples
mod Patches
mod Scaling
mod Labels
mod Collected
mod Listed
mod Rescheduling
mod Reconciling
mod Growing
mod Starting
mod Taking
mod Conflicts
mod Served
