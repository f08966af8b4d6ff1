-- ===== src/Tests/Reconciling.antt =====
-- A whole reconcile of the sample cluster.
