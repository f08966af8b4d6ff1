-- ===== src/Collect/Slices.antt =====
-- GetResourceSliceInfo of internal/utils/info_utils.go: the devices that the nodes list.
pub mod Listed
pub mod Runs
use dynamic_device_scaler.Base.{
  Text, Bool, true, false, not, ◌||◌, Option, none, some, List, [], ◌∷◌, any, ◌==◌, text_eq, bytes,
  if◌then◌else◌,
}
use dynamic_device_scaler.Types.{ResourceSliceDevice, ResourceSliceInfo}
use dynamic_device_scaler.Kube.{ResourceSlice, SliceDevice}
use dynamic_device_scaler.Effects.{
  Result, ok, err, panic, lift, wrap, Environment, Program, request,
}
use dynamic_device_scaler.Effects
use dynamic_device_scaler.Effects.Results.{◌>>=◌}

abbrev pub is_empty : {A : Type 0} → List A → Bool
is_empty [] = true
is_empty (x ∷ xs) = false

-- `hasBindingConditions`
unfoldable pub has_binding_conditions : ResourceSlice → Bool
has_binding_conditions rs = any (λ d. not (is_empty d.binding_conditions)) rs.devices

-- `driverUUIDAttrMap`, which is "" for another driver.
abbrev pub uuid_attribute : Text → Text
uuid_attribute driver = if driver == bytes "gpu.nvidia.com" then bytes "uuid" else []

-- `*attrValue.StringValue`
abbrev string_value : Option Text → Result Text
string_value none = panic "invalid memory address or nil pointer dereference"
string_value (some text) = ok text

-- The loop over the attributes of a device. Each name stands once, so that the order of the visits
-- does not matter.
pub uuid_in : Text → List (Text × Option Text) → Text → Result Text
uuid_in driver [] uuid = ok uuid
uuid_in driver ((name, value) ∷ attributes) uuid =
    (if uuid_attribute driver == name then string_value value else ok uuid) >>= λ found.
    uuid_in driver attributes found

-- The loop over the devices of a slice.
slice_devices : Text → List SliceDevice → Result (List ResourceSliceDevice)
unfolding uuid_in
slice_devices driver [] = ok []
slice_devices driver (d ∷ ds) = do
  uuid ← uuid_in driver d.attributes []
  rest ← slice_devices driver ds
  ok (record { name = d.name; uuid = uuid } ∷ rest)

-- A slice of a node with devices of which none has binding conditions.
slice_info : ResourceSlice → Option Text → Result (Option ResourceSliceInfo)
unfolding slice_devices
slice_info rs none = ok none
slice_info rs (some node_name) =
    if is_empty rs.devices || has_binding_conditions rs
    then ok none
    else slice_devices rs.driver rs.devices >>= λ devices. ok (
        some (record {
          name = rs.name;
          node_name = node_name;
          creation_timestamp = rs.creation_timestamp;
          driver = rs.driver;
          devices = devices;
          pool = rs.pool_name;
        }))

abbrev pub add_found : {A : Type 0} → Option A → List A → List A
add_found none rest = rest
add_found (some a) rest = a ∷ rest

unfoldable pub resource_slice_infos : List ResourceSlice → Result (List ResourceSliceInfo)
unfolding slice_info
resource_slice_infos [] = ok []
resource_slice_infos (rs ∷ slices) = do
  found ← slice_info rs rs.node_name
  rest ← resource_slice_infos slices
  ok (add_found found rest)

-- `GetResourceSliceInfo`
unfoldable pub get_resource_slice_info : (env : Environment) → Program env (List ResourceSliceInfo)
get_resource_slice_info env =
    Effects.◌>>=◌ (wrap "failed to list ResourceSlices" (request env.list_slices))
      λ slices. lift (resource_slice_infos slices)
