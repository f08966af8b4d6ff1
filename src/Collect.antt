-- ===== src/Collect.antt =====
-- internal/utils/info_utils.go: the information that a reconcile collects.
pub mod Slices
pub mod Claims
pub mod Names
pub mod Nodes
pub mod Config
pub mod Sends
