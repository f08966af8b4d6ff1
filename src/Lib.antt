-- ===== src/Lib.antt =====
-- The Dynamic Device Scaler (Go), a Kubernetes controller that grows and shrinks the requests for
-- fabric-attached devices of each node. At every reconcile it reads the claims, the slices, the
-- nodes and a ConfigMap, refreshes the last-used times of the resources, and for each node fails
-- the claims that cannot be served together, tells the scheduler of the claims whose devices are
-- there, scales the requests, and labels the node with the devices that can still be added.
--
-- Parts and files
--   Base          shared tests, lists, integers and byte strings
--   Types         internal/types: the structs that a reconcile collects
--   Kube          the fields of the Kubernetes objects that are read, and the writes
--   Effects       the monad of the program (Monad), what it calls (World), and the rules for its
--                 writes and results (Rules, Bounds), for its calls (Calls), for what it
--                 leaves true of the cluster (Keeping) and for what it has done when it
--                 returns (Doing, Parts)
--   Models        internal/utils: isDeviceCoexistence, notIn, GetModelLimit (reschedule_utils.go),
--                 getModelName (info_utils.go), GetDriverType (device_utils.go)
--   Conditions    internal/utils/info_utils.go: the tests of conditions
--   Patch         internal/utils/patch_utils.go: the four patches with their retries
--   LastUsed      internal/utils/reschedule_utils.go: isLastUsedOverThreshold
--   Usage         internal/utils/device_utils.go: GetConfiguredDeviceCount and what it calls
--   Scaling       internal/utils/device_utils.go: DynamicAttach, DynamicDetach, getNextSize
--   Reschedule    internal/utils/reschedule_utils.go: the shared functions, and in Failed
--                 RescheduleFailedNotification, in Notification RescheduleNotification
--   NodeLabel     internal/utils/patch_utils.go: UpdateNodeLabel
--   Collect       internal/utils/info_utils.go: GetResourceClaimInfo (Claims), GetResourceSliceInfo
--                 (Slices), GetNodeInfo (Nodes), GetConfigMapInfo (Config) and its checks (Names)
--   Controller    internal/controller/resourcemonitor_controller.go: Reconcile, collectInfo,
--                 handleNodes, handleDevices, updateComposableResourceLastUsedTime;
--                 in Creation and Served, what any number of reconciles and a whole
--                 reconcile come to
--   Main          cmd/main.go: getEnvAsInt and the settings of the reconciler, and in Startup main
--                 and SetupWithManager, over the libraries and the machine (Host)
--   Tests         a concrete cluster, with the theorems applied to it
--
-- A function of the source that calls the API server or the clock is an action: from the state of
-- the cluster to a result (a value, an error or a panic), the next state, and the list of the
-- writes that were sent, refused ones included. The record Environment stands for the code
-- outside the repository: the two clients, the clock, the order of `range` over a map,
-- `sort.Slice`, RFC 3339 times, YAML, and the tables of Unicode above U+00FF. It is a parameter
-- of every definition that uses it, and each call may answer anything and change the cluster in
-- any way. Where a theorem needs more, it says so in a hypothesis: that Get answers with the
-- object of the name (NamesAgree), that `range` visits the keys and nothing else (RangesOver),
-- that the claims stay as they are (ClaimsStay), that the clock stands still (IsSteady), that the
-- lists hold what the API server lets through (ListsReadable), that no one else creates requests
-- (OnlyCreator), or that the server refuses a patch with conflicts only, a number of times
-- (Relents). The record Host stands for the libraries that cmd/main.go calls in the same way.
--
-- A slice of the source is a list and a string the list of its bytes. A number of the source is
-- an unbounded integer: a count stays below the number of objects that one list call returns, far
-- from the bounds of an int64; the difference of two times saturates as in Go. The loops go over
-- lists. The two loops that update their own slice run on the number of rounds left, the length
-- of the slice at the start, which never changes. The retry loops run maxRetries times.
--
-- Not modelled: log calls; the arguments that an error message formats; what the libraries do with
-- the flags, the clients and the manager that cmd/main.go asks for. The claims of a node are copies
-- that share the arrays of their devices with the list they are taken from; since node names are
-- unique in a cluster, no other node reads them again. The loop rsLoop of
-- RescheduleFailedNotification sets a variable that nothing reads and is left out, except for the
-- error of its list call.
pub mod Base
pub mod Types
pub mod Kube
pub mod Effects
pub mod Models
pub mod Conditions
pub mod Patch
pub mod LastUsed
pub mod Usage
pub mod Scaling
pub mod Reschedule
pub mod NodeLabel
pub mod Collect
pub mod Controller
pub mod Main
mod Tests
