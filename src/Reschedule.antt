-- ===== src/Reschedule.antt =====
-- internal/utils/reschedule_utils.go: what both notifications share. The claims of a node are a
-- slice that the loops update at an index. A claim taken from it by `range` is a copy that shares
-- the array of its devices with the slice, so the write-back at the index is all that a reader sees.
pub mod States
pub mod Runs
pub mod Failed
pub mod Notification
use dynamic_device_scaler.Base.{
  ℕ, suc, ℤ, ltb_ℤ, Text, Bool, true, false, Option, none, some, List, [], ◌∷◌, map, lookup, insert,
  ◌==◌, text_eq, bytes, if◌then◌else◌,
}
use dynamic_device_scaler.Types.{
  DeviceState, preparing, reschedule, failed, state_eq, ResourceClaimDevice, ResourceClaimInfo,
}
use dynamic_device_scaler.Effects.{pure, ◌>>=◌, ◌>>◌, Environment, Program}
use dynamic_device_scaler.Patch.{patch_resource_claim_device_conditions}

-- The argument `order` of sortByTime, a string with these two values.
pub data Order : Type 0 where
  ascending descending : Order

-- The comparison that sortByTime hands to sort.Slice.
abbrev pub before : Order → ResourceClaimInfo → ResourceClaimInfo → Bool
before ascending a b = ltb_ℤ a.creation_timestamp b.creation_timestamp
before descending a b = ltb_ℤ b.creation_timestamp a.creation_timestamp

unfoldable pub sort_by_time : Environment → Order → List ResourceClaimInfo → List ResourceClaimInfo
sort_by_time env order claims = env.sort_slice (before order) claims

abbrev pub count_at : Text → List (Text × ℕ) → ℕ
count_at model models = elim (lookup model models) [ none ↦ 0 | some n ↦ n ]

count_models : List ResourceClaimDevice → List (Text × ℕ) → List (Text × ℕ)
count_models [] models = models
count_models (d ∷ ds) models =
    count_models ds (
      if d.state == preparing
      then insert d.model (suc (count_at d.model models)) models
      else models)

-- `getUniqueModelsWithCounts`
unfoldable pub get_unique_models_with_counts : ResourceClaimInfo → List (Text × ℕ)
unfolding count_models
get_unique_models_with_counts rc = count_models rc.devices []

abbrev pub keys_of : {A : Type 0} → List (Text × A) → List Text
keys_of m = map (λ (k, _). k) m

abbrev pub with_device_state : DeviceState → ResourceClaimDevice → ResourceClaimDevice
with_device_state target d = record d { state = target }

-- The claim with every device in a state.
abbrev pub with_state : DeviceState → ResourceClaimInfo → ResourceClaimInfo
with_state target rc = record rc { devices = map (with_device_state target) rc.devices }

abbrev pub fabric_device_failed : Text
fabric_device_failed = bytes "FabricDeviceFailed"

abbrev pub fabric_device_reschedule : Text
fabric_device_reschedule = bytes "FabricDeviceReschedule"

-- `setDevicesState`
unfoldable pub set_devices_state :
    (env : Environment) → ResourceClaimInfo → DeviceState → Text → Program env ResourceClaimInfo
set_devices_state env rc target condition_type = do
  patch_resource_claim_device_conditions env rc.name rc.namespace condition_type
  pure (with_state target rc)

-- One round of `for k, rc := range claims`: the claim at the index, if the index is in range.
abbrev pub at_claim : {A : Type 0} → Option ResourceClaimInfo → A → (ResourceClaimInfo → A) → A
at_claim none stop round = stop
at_claim (some rc) stop round = round rc
