-- ===== src/Kube.antt =====
-- The fields of the Kubernetes objects that the program reads (ResourceClaim, ResourceSlice, Node,
-- ConfigMap of k8s.io/api) and of the two custom resources of the composable-resource-operator, and
-- the requests that it sends. A pointer is an `Option`; a map lists its entries, each key once.
use dynamic_device_scaler.Base.{ℤ, Text, Bool, true, false, Option, List}
use dynamic_device_scaler.Types.{Time}

-- metav1.Condition
pub record Condition : Type 0 where
  pub type : Text
  pub status : Text
  pub last_transition_time : Time
  pub reason : Text
  pub message : Text

-- AllocatedDeviceStatus. A nil slice of conditions is `none`.
pub record DeviceStatus : Type 0 where
  pub driver : Text
  pub pool : Text
  pub device : Text
  pub conditions : Option (List Condition)

-- DeviceRequestAllocationResult
pub record DeviceResult : Type 0 where
  pub driver : Text
  pub pool : Text
  pub device : Text
  pub binding_conditions : List Text
  pub binding_failure_conditions : List Text

-- NodeSelectorRequirement
pub record FieldRequirement : Type 0 where
  pub key : Text
  pub operator : Text
  pub values : List Text

pub record SelectorTerm : Type 0 where
  pub match_fields : List FieldRequirement

pub record Allocation : Type 0 where
  pub results : List DeviceResult
  pub node_selector : Option (List SelectorTerm)

pub record ResourceClaim : Type 0 where
  pub name : Text
  pub namespace : Text
  pub creation_timestamp : Time
  pub reserved_for : List Text
  pub allocation : Option Allocation
  pub devices : List DeviceStatus

pub record SliceDevice : Type 0 where
  pub name : Text
  pub binding_conditions : List Text
  pub attributes : List (Text × Option Text)

pub record ResourceSlice : Type 0 where
  pub name : Text
  pub creation_timestamp : Time
  pub driver : Text
  pub pool_name : Text
  pub node_name : Option Text
  pub devices : List SliceDevice

pub record Node : Type 0 where
  pub name : Text
  pub labels : List (Text × Text)

-- ScalarResourceDetails of a ComposabilityRequest
pub record ResourceDetails : Type 0 where
  pub type : Text
  pub model : Text
  pub size : ℤ
  pub target_node : Text

pub record ComposabilityRequest : Type 0 where
  pub name : Text
  pub resource : ResourceDetails

-- `Status.State` of a ComposableResource is a string; the code tells these two from the rest.
pub data ResourceState : Type 0 where
  online attaching : ResourceState
  other : Text → ResourceState

pub record ComposableResource : Type 0 where
  pub name : Text
  pub annotations : Option (List (Text × Text))
  pub creation_timestamp : Time
  pub deletion_timestamp : Option Time
  pub model : Text
  pub target_node : Text
  pub state : ResourceState
  pub device_id : Text

pub record ConfigMap : Type 0 where
  pub entries : List (Text × Text)

-- A request that changes the cluster, with what its body says.
pub data Write : Type 0 where
  create_request : (generate_name : Text) → ResourceDetails → Write
  patch_size : (request : Text) (size : ℤ) → Write
  patch_annotation : (resource key value : Text) → Write
  patch_claim_devices : (name namespace : Text) (devices : List DeviceStatus) → Write
  patch_node_labels : (node : Text) (labels : List (Text × Option Text)) → Write

abbrev pub is_online : ResourceState → Bool
is_online online = true
is_online attaching = false
is_online (other s) = false

-- "Online" or "Attaching"
abbrev pub is_online_or_attaching : ResourceState → Bool
is_online_or_attaching online = true
is_online_or_attaching attaching = true
is_online_or_attaching (other s) = false
