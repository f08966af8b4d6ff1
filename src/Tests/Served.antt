-- ===== src/Tests/Served.antt =====
-- A whole reconcile that returns, at a server that takes every write.
use dynamic_device_scaler.Base.{[]}
use dynamic_device_scaler.Effects.{done, Environment}
use dynamic_device_scaler.Tests.Cluster.{Cluster}
use dynamic_device_scaler.Tests.Samples.{cluster}
use dynamic_device_scaler.Tests.Growing.{growing}

-- No claim waits.
abbrev unclaimed : Environment
unclaimed = record growing { list_claims = λ c. (done [], c) }

abbrev small : Cluster
small = record cluster { claims = [] }
