-- ===== src/Types.antt =====
-- internal/types: what a reconcile collects, as records with the fields of the Go structs.
use dynamic_device_scaler.Base.{ℤ, Text, Bool, true, false, List, ◌≡◌, ◌↔◌, Eq, arith}

-- An instant, in nanoseconds since Go's zero time (January 1 of the year 1, UTC).
abbrev pub Time : Type 0
Time = ℤ

-- `time.Duration`, in nanoseconds.
abbrev pub Duration : Type 0
Duration = ℤ

-- internal/types/configmap.go
pub record DeviceInfo : Type 0 where
  pub index : ℤ
  pub cdi_model_name : Text
  pub dra_attributes : List (Text × Text)
  pub label_key_model : Text
  pub driver_name : Text
  pub k8s_device_name : Text
  pub cannot_coexist_with : List ℤ

pub record ComposableDraSpec : Type 0 where
  pub device_infos : List DeviceInfo
  pub label_prefix : Text
  pub fabric_id_range : List ℤ

-- internal/types/node.go
pub record ModelConstraints : Type 0 where
  pub model : Text
  pub device_name : Text
  pub max_device : ℤ
  pub min_device : ℤ
  pub max_device_set : Bool

pub record NodeInfo : Type 0 where
  pub name : Text
  pub models : List ModelConstraints

-- internal/types/resource_claim.go. The field `State` is a string; the code writes only these
-- four values to it, the empty string by leaving it alone.
pub data DeviceState : Type 0 where
  unset preparing reschedule failed : DeviceState

pub record ResourceClaimDevice : Type 0 where
  pub name : Text
  pub model : Text
  pub state : DeviceState
  pub driver : Text
  pub pool : Text

pub record ResourceClaimInfo : Type 0 where
  pub name : Text
  pub node_name : Text
  pub creation_timestamp : Time
  pub namespace : Text
  pub devices : List ResourceClaimDevice

-- internal/types/resource_slice.go
pub record ResourceSliceDevice : Type 0 where
  pub name : Text
  pub uuid : Text

pub record ResourceSliceInfo : Type 0 where
  pub name : Text
  pub node_name : Text
  pub creation_timestamp : Time
  pub driver : Text
  pub devices : List ResourceSliceDevice
  pub pool : Text

abbrev pub state_beq : DeviceState → DeviceState → Bool
state_beq unset unset = true
state_beq preparing preparing = true
state_beq reschedule reschedule = true
state_beq failed failed = true
state_beq _ _ = false

pub state_beq_iff : (s t : DeviceState) → (state_beq s t ≡ true) ↔ (s ≡ t)
state_beq_iff unset t = ground arith
state_beq_iff _ t = ground arith

instance abbrev pub state_eq : Eq DeviceState
state_eq = record { same = state_beq; same_iff = state_beq_iff }
