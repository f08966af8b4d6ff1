-- ===== src/Collect/Claims.antt =====
-- GetResourceClaimInfo of internal/utils/info_utils.go: the claims with binding conditions, the
-- models of their devices, and the states that the conditions tell.
pub mod States
pub mod Infos
pub mod Pools
pub mod Complete
pub mod Runs
use dynamic_device_scaler.Base.{
  ℕ, ltb, leb, Text, String, Bool, true, false, not, ◌&&◌, Option, none, some, List, [], ◌∷◌, any,
  ◌==◌, nat_eq, text_eq, bytes, if◌then◌else◌,
}
use dynamic_device_scaler.Types.{
  ComposableDraSpec, DeviceState, unset, preparing, reschedule, failed, ResourceClaimDevice,
  ResourceClaimInfo,
}
use dynamic_device_scaler.Kube.{
  Condition, DeviceStatus, DeviceResult, FieldRequirement, SelectorTerm, Allocation, SliceDevice,
  ResourceSlice, ResourceClaim,
}
use dynamic_device_scaler.Conditions.{
  condition_true, has_condition_with_status, has_matching_binding_condition,
}
use dynamic_device_scaler.Effects.{
  Result, ok, err, panic, lift, wrap, Environment, Program, request,
}
use dynamic_device_scaler.Effects
use dynamic_device_scaler.Effects.Results.{◌>>=◌, or_default}
use dynamic_device_scaler.Models.{get_model_name}
use dynamic_device_scaler.Reschedule.{fabric_device_failed, fabric_device_reschedule}
use dynamic_device_scaler.Collect.Slices.{is_empty, add_found}

-- `\d+$`
abbrev pub are_digits : Text → Bool
are_digits [] = true
are_digits (b ∷ bs) = leb b'0' b && leb b b'9' && are_digits bs

abbrev pub after : Text → Text → Option Text
after [] text = some text
after (p ∷ prefix) [] = none
after (p ∷ prefix) (b ∷ text) = if p == b then after prefix text else none

-- The whole text matches `-fabric\d+`.
abbrev pub is_fabric_suffix : Text → Bool
is_fabric_suffix text = elim (after (bytes "-fabric") text) [
  | none ↦ false
  | some rest ↦ not (is_empty rest) && are_digits rest
]

-- `regexp.MustCompile("-fabric\d+$").ReplaceAllString(pool, "")`
unfoldable pub device_name_of_pool : Text → Text
device_name_of_pool [] = []
device_name_of_pool (b ∷ bs) = if is_fabric_suffix (b ∷ bs) then [] else b ∷ device_name_of_pool bs

-- The search for the device (ResourceSliceLoop).
abbrev pub is_in_slices : DeviceResult → List ResourceSlice → Bool
is_in_slices d = any λ rs.
    (rs.driver == d.driver && rs.pool_name == d.pool) && any (λ x. x.name == d.device) rs.devices

unfoldable pub model_of : ComposableDraSpec → List ResourceSlice → DeviceResult → Result Text
unfolding device_name_of_pool
model_of spec slices d = do
  listed ←
      (if is_in_slices d slices then get_model_name spec (device_name_of_pool d.pool) else ok [])
  ok (
      if is_empty listed
      then or_default [] (get_model_name spec (device_name_of_pool d.pool))
      else listed)

-- The state that conditions tell, or the state as it is.
abbrev pub state_of_conditions : DeviceResult → List Condition → DeviceState → DeviceState
state_of_conditions d conditions state =
    if has_condition_with_status conditions fabric_device_reschedule condition_true
    then reschedule
    else if has_condition_with_status conditions fabric_device_failed condition_true
    then failed
    else if not (
        has_matching_binding_condition conditions d.binding_conditions d.binding_failure_conditions)
    then preparing
    else state

abbrev pub state_of_status : DeviceResult → Option (List Condition) → DeviceState → DeviceState
state_of_status d none state = state
state_of_status d (some conditions) state = state_of_conditions d conditions state

-- The loop over the devices of the status.
pub state_in : DeviceResult → List DeviceStatus → DeviceState → DeviceState
state_in d [] state = state
state_in d (x ∷ xs) state =
    state_in d xs (if x.device == d.device then state_of_status d x.conditions state else state)

unfoldable pub device_state : DeviceResult → List DeviceStatus → DeviceState
unfolding state_in
device_state d [] = preparing
device_state d (x ∷ xs) = state_in d (x ∷ xs) unset

-- The loop over the results of the allocation.
pub claim_devices :
    ComposableDraSpec
    → List ResourceSlice
    → List DeviceStatus
    → List DeviceResult
    → Result (List ResourceClaimDevice)
unfolding model_of device_state
claim_devices spec slices statuses [] = ok []
claim_devices spec slices statuses (d ∷ ds) =
    let rest = claim_devices spec slices statuses ds in
    if is_empty d.binding_conditions
    then rest
    else model_of spec slices d >>= λ model. rest >>= λ devices. ok (
        record {
          name = d.device;
          model = model;
          state = device_state d statuses;
          driver = d.driver;
          pool = d.pool;
        }
        ∷ devices)

abbrev first_value : List Text → Result Text
first_value [] = panic "index out of range [0] with length 0"
first_value (v ∷ values) = ok v

name_in_fields : List FieldRequirement → Option (Result Text)
name_in_fields [] = none
name_in_fields (f ∷ fields) =
    if f.key == bytes "metadata.name" && f.operator == bytes "In"
    then some (first_value f.values)
    else name_in_fields fields

abbrev or_else : {A : Type 0} → Option A → A → A
or_else none a = a
or_else (some b) a = b

-- `getNodeName`
unfoldable pub get_node_name : List SelectorTerm → Result Text
unfolding name_in_fields
get_node_name [] = ok []
get_node_name (t ∷ terms) = or_else (name_in_fields t.match_fields) (get_node_name terms)

abbrev selected_node : Option (List SelectorTerm) → Result Text
selected_node none = ok []
selected_node (some terms) = get_node_name terms

info_of : ResourceClaim → Allocation → List ResourceClaimDevice → Result (Option ResourceClaimInfo)
unfolding get_node_name
info_of rc allocation [] = ok none
info_of rc allocation (d ∷ ds) = do
  node_name ← selected_node allocation.node_selector
  ok (
      some (record {
        name = rc.name;
        node_name = node_name;
        creation_timestamp = rc.creation_timestamp;
        namespace = rc.namespace;
        devices = d ∷ ds;
      }))

-- A claim that is reserved and allocated.
allocated_info :
    ComposableDraSpec
    → List ResourceSlice
    → ResourceClaim
    → Option Allocation
    → Result (Option ResourceClaimInfo)
unfolding claim_devices info_of
allocated_info spec slices rc none = ok none
allocated_info spec slices rc (some allocation) =
    if is_empty rc.reserved_for
    then ok none
    else claim_devices spec slices rc.devices allocation.results >>= λ devices.
        info_of rc allocation devices

unfoldable pub resource_claim_infos :
    ComposableDraSpec → List ResourceSlice → List ResourceClaim → Result (List ResourceClaimInfo)
unfolding allocated_info
resource_claim_infos spec slices [] = ok []
resource_claim_infos spec slices (rc ∷ claims) = do
  found ← allocated_info spec slices rc rc.allocation
  rest ← resource_claim_infos spec slices claims
  ok (add_found found rest)

-- `GetResourceClaimInfo`
unfoldable pub get_resource_claim_info :
    (env : Environment) → ComposableDraSpec → Program env (List ResourceClaimInfo)
get_resource_claim_info env spec =
    Effects.◌>>=◌ (wrap "failed to list ResourceClaims" (request env.list_claims)) λ claims.
      Effects.◌>>=◌ (wrap "failed to list ResourceSlices" (request env.list_slices))
        λ slices. lift (resource_claim_infos spec slices claims)
