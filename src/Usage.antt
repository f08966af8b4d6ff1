-- ===== src/Usage.antt =====
-- internal/utils/device_utils.go, the counts: which devices of a model a node needs
-- (GetConfiguredDeviceCount), from the claims and from the devices that Pods use. A count stays
-- below the number of devices listed, far from the bounds of an int64.
pub mod Sends
pub mod Slices
pub mod Count
pub mod Runs
use dynamic_device_scaler.Base.{
  ℕ, suc, ◌+◌, Text, Bool, true, false, ◌&&◌, ◌||◌, Option, none, some, List, [], ◌∷◌, any, ◌==◌,
  text_eq, if◌then◌else◌,
}
use dynamic_device_scaler.Types.{
  preparing, reschedule, state_eq, ResourceClaimDevice, ResourceClaimInfo, ResourceSliceDevice,
  ResourceSliceInfo,
}
use dynamic_device_scaler.Kube.{
  DeviceResult, Allocation, ResourceClaim, ComposableResource, is_online,
}
use dynamic_device_scaler.Effects.{pure, wrap, ◌>>=◌, ◌>>◌, Environment, Program, request}

-- The name of the first device of a slice with the UUID.
device_with_uuid : Text → List ResourceSliceDevice → Option Text
device_with_uuid device_id [] = none
device_with_uuid device_id (d ∷ ds) =
    if d.uuid == device_id then some d.name else device_with_uuid device_id ds

abbrev in_slice :
    ResourceSliceInfo
    → Option Text
    → Option (ResourceSliceInfo × Text)
    → Option (ResourceSliceInfo × Text)
in_slice slice (some name) rest = some (slice, name)
in_slice slice none rest = rest

-- `IsDeviceResourceSliceRed`: the slice and the name of the device, if it is listed by a node.
unfoldable pub is_device_resource_slice_red :
    Text → List ResourceSliceInfo → Option (ResourceSliceInfo × Text)
unfolding device_with_uuid
is_device_resource_slice_red device_id [] = none
is_device_resource_slice_red device_id (rs ∷ slices) =
    in_slice rs (device_with_uuid device_id rs.devices)
      (is_device_resource_slice_red device_id slices)

abbrev pub is_allocated_device : Text → ResourceSliceInfo → DeviceResult → Bool
is_allocated_device device_name slice d =
    slice.pool == d.pool && slice.driver == d.driver && device_name == d.device

abbrev allocates : Text → ResourceSliceInfo → Option Allocation → Bool
allocates device_name slice none = false
allocates device_name slice (some a) = any (is_allocated_device device_name slice) a.results

abbrev pub is_claimed : Text → ResourceSliceInfo → List ResourceClaim → Bool
is_claimed device_name slice = any (λ claim. allocates device_name slice claim.allocation)

abbrev pub is_preparing_or_reschedule : Text → ResourceClaimDevice → Bool
is_preparing_or_reschedule model d =
    d.model == model && (d.state == preparing || d.state == reschedule)

count_devices : Text → ℕ → List ResourceClaimDevice → ℕ
count_devices model count [] = count
count_devices model count (d ∷ ds) =
    count_devices model (if is_preparing_or_reschedule model d then suc count else count) ds

count_claims : Text → Text → ℕ → List ResourceClaimInfo → ℕ
unfolding count_devices
count_claims model node_name count [] = count
count_claims model node_name count (rc ∷ rcs) =
    count_claims model node_name
      (if rc.node_name == node_name then count_devices model count rc.devices else count) rcs

-- `getPreparingRescheduleDevicesCount`
unfoldable pub get_preparing_reschedule_devices_count : List ResourceClaimInfo → Text → Text → ℕ
unfolding count_claims
get_preparing_reschedule_devices_count infos model node_name = count_claims model node_name 0 infos

module _ (env : Environment) where
  unfoldable pub is_device_used_by_pod : Text → ResourceSliceInfo → Program env Bool
  is_device_used_by_pod device_name slice = do
    claims ← wrap "failed to list ResourceClaims" (request env.list_claims)
    pure (is_claimed device_name slice claims)

  abbrev is_used_at : Option (ResourceSliceInfo × Text) → Program env Bool
  is_used_at none = pure false
  is_used_at (some (slice, device_name)) = is_device_used_by_pod device_name slice

  -- The body of the loop over the resources: whether it is counted.
  is_counted : Text → Text → List ResourceSliceInfo → ComposableResource → Program env Bool
  unfolding is_device_used_by_pod
  is_counted model node_name slices resource =
      if resource.target_node == node_name && resource.model == model && is_online resource.state
      then is_used_at (is_device_resource_slice_red resource.device_id slices)
      else pure false

  count_resources :
      Text → Text → List ResourceSliceInfo → ℕ → List ComposableResource → Program env ℕ
  unfolding is_counted
  count_resources model node_name slices count [] = pure count
  count_resources model node_name slices count (r ∷ rs) =
      is_counted model node_name slices r >>= λ used.
      count_resources model node_name slices (if used then suc count else count) rs

  -- `getPodAllocatedDevicesCount`
  unfoldable pub get_pod_allocated_devices_count :
      Text → Text → List ResourceSliceInfo → Program env ℕ
  unfolding count_resources
  get_pod_allocated_devices_count model node_name slices = do
    resources ← wrap "failed to list composableResourceList" (request env.list_resources)
    count_resources model node_name slices 0 resources

  unfoldable pub get_configured_device_count :
      Text → Text → List ResourceClaimInfo → List ResourceSliceInfo → Program env ℕ
  unfolding get_pod_allocated_devices_count
  get_configured_device_count model node_name infos slices = do
    allocated ← get_pod_allocated_devices_count model node_name slices
    pure (get_preparing_reschedule_devices_count infos model node_name + allocated)
