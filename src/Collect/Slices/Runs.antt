-- ===== src/Collect/Slices/Runs.antt =====
-- GetResourceSliceInfo as a sequence of calls. It panics only on a UUID that is not a string.
use dynamic_device_scaler.Base.{
  refl, ◌≡◌, Text, true, ◌||◌, Option, none, some, List, [], ◌∷◌, All, ◌==◌, text_eq, Bool-cases,
  inl, inr,
}
use dynamic_device_scaler.Kube.{SliceDevice, ResourceSlice}
use dynamic_device_scaler.Effects.{
  wrap, request, Environment, done, Runs, Any, Returns, lists_slices, lift-Runs, answer-Runs,
  >>=-Runs,
}
use dynamic_device_scaler.Effects.Results.{>>=-Returns, if-Returns}
use dynamic_device_scaler.Collect.Slices.{
  uuid_attribute, string_value, uuid_in, slice_devices, is_empty, has_binding_conditions,
  slice_info, resource_slice_infos, get_resource_slice_info,
}

-- The UUID of a device is a string.
abbrev IsString : Option Text → Type 0
IsString none = ⊥
IsString (some text) = Unit

abbrev HasStringUuid : Text → List (Text × Option Text) → Type 0
HasStringUuid driver [] = Unit
HasStringUuid driver ((name, value) ∷ attributes) =
    ((uuid_attribute driver == name) ≡ true → IsString value) × HasStringUuid driver attributes

abbrev pub IsReadableSlice : ResourceSlice → Type 0
IsReadableSlice rs = All (λ d. HasStringUuid rs.driver d.attributes) rs.devices

string_value-Returns : (o : Option Text) → IsString o → Returns Any (string_value o)
string_value-Returns none h = h
string_value-Returns (some text) h = tt

uuid_in-Returns :
    (driver : Text) (attributes : List (Text × Option Text)) (uuid : Text)
    → HasStringUuid driver attributes
    → Returns Any (uuid_in driver attributes uuid)
unfolding uuid_in
uuid_in-Returns driver [] uuid h = tt
uuid_in-Returns driver ((name, value) ∷ attributes) uuid h =
    elim (Bool-cases (uuid_attribute driver == name)) [
      | inl e ↦ rw e (
          >>=-Returns Any Any (string_value value) (uuid_in driver attributes)
            (string_value-Returns value (h.0 e))
            λ found _. uuid_in-Returns driver attributes found h.1)
      | inr e ↦ rw e (uuid_in-Returns driver attributes uuid h.1)
    ]

slice_devices-Returns :
    (driver : Text) (ds : List SliceDevice)
    → All (λ d. HasStringUuid driver d.attributes) ds
    → Returns Any (slice_devices driver ds)
unfolding slice_devices
slice_devices-Returns driver [] h = tt
slice_devices-Returns driver (d ∷ ds) h =
    >>=-Returns Any Any (uuid_in driver d.attributes []) _
      (uuid_in-Returns driver d.attributes [] h.0)
      λ uuid _.
        >>=-Returns Any Any (slice_devices driver ds) _ (slice_devices-Returns driver ds h.1)
          λ rest _. tt

slice_info-Returns :
    (rs : ResourceSlice) (o : Option Text) → IsReadableSlice rs → Returns Any (slice_info rs o)
unfolding slice_info
slice_info-Returns rs none h = tt
slice_info-Returns rs (some node_name) h =
    if-Returns Any (is_empty rs.devices || has_binding_conditions rs) _ _ tt (
      >>=-Returns Any Any (slice_devices rs.driver rs.devices) _
        (slice_devices-Returns rs.driver rs.devices h) λ devices _. tt)

resource_slice_infos-Returns :
    (slices : List ResourceSlice)
    → All IsReadableSlice slices
    → Returns Any (resource_slice_infos slices)
unfolding resource_slice_infos
resource_slice_infos-Returns [] h = tt
resource_slice_infos-Returns (rs ∷ slices) h =
    >>=-Returns Any Any (slice_info rs rs.node_name) _ (slice_info-Returns rs rs.node_name h.0)
      λ found _.
        >>=-Returns Any Any (resource_slice_infos slices) _
          (resource_slice_infos-Returns slices h.1) λ rest _. tt

pub get_resource_slice_info-Runs :
    (env : Environment)
    → ((s : env.State) (slices : List ResourceSlice)
        → (env.list_slices s).0 ≡ done slices
        → All IsReadableSlice slices)
    → Runs env Any (get_resource_slice_info env)
unfolding get_resource_slice_info
get_resource_slice_info-Runs env readable =
    >>=-Runs {Q = All IsReadableSlice} (wrap _ (request env.list_slices)) _
      (answer-Runs env "failed to list ResourceSlices" env.list_slices (λ s. lists_slices refl)
        readable)
      λ slices h. lift-Runs _ (resource_slice_infos-Returns slices h)
