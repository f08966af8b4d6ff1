-- ===== src/Collect/Slices/Listed.antt =====
-- Which slices GetResourceSliceInfo lists, and what it says of them.
use dynamic_device_scaler.Base.{
  Text, Bool, true, false, not, ◌&&◌, ◌||◌, Option, none, some, List, [], ◌∷◌, ◌≡◌, In,
}
use dynamic_device_scaler.Types.{ResourceSliceDevice, ResourceSliceInfo}
use dynamic_device_scaler.Kube.{ResourceSlice, SliceDevice}
use dynamic_device_scaler.Effects.{ok}
use dynamic_device_scaler.Collect.Slices.{is_empty, has_binding_conditions, uuid_in}

-- The devices come in order, each with its name and the UUID of its attributes.
abbrev pub AreDevices : Text → List SliceDevice → List ResourceSliceDevice → Type 0
AreDevices driver [] [] = Unit
AreDevices driver (d ∷ ds) (x ∷ xs) =
    ((x.name ≡ d.name) × (uuid_in driver d.attributes [] ≡ ok x.uuid)) × AreDevices driver ds xs
AreDevices driver [] (x ∷ xs) = ⊥
AreDevices driver (d ∷ ds) [] = ⊥

-- A slice that is listed: a node has it, and it has devices, none of them with binding conditions.
pub record SliceOf (slices : List ResourceSlice) (info : ResourceSliceInfo) : Type 0 where
  pub slice : ResourceSlice
  pub member : In slice slices
  pub on_node : slice.node_name ≡ some info.node_name
  pub some_device : is_empty slice.devices ≡ false
  pub unbound : has_binding_conditions slice ≡ false
  pub same_name : info.name ≡ slice.name
  pub same_driver : info.driver ≡ slice.driver
  pub same_pool : info.pool ≡ slice.pool_name
  pub same_devices : AreDevices slice.driver slice.devices info.devices

-- A node has the slice, and it has devices, none of them with binding conditions.
abbrev pub is_listed : ResourceSlice → Bool
is_listed rs =
    elim rs.node_name [ none ↦ false | some name ↦ true ]
    && not (is_empty rs.devices || has_binding_conditions rs)

abbrev Found : List ResourceSlice → ResourceSlice → Option ResourceSliceInfo → Type 0
Found slices rs none = is_listed rs ≡ false
Found slices rs (some info) = (is_listed rs ≡ true) × SliceOf (rs ∷ slices) info
