-- ===== src/Usage/Slices.antt =====
-- What IsDeviceResourceSliceRed finds.
use dynamic_device_scaler.Base.{
  Text, none, some, List, [], ◌∷◌, ◌≡◌, refl, ap, subst, ◌≢◌, inl, inr, In, Bool-cases,
  Option-cases, ◌==◌, ==_iff, text_eq, arith,
}
use mathlib.Core.Option.{some-injective, some-ne-none}
use dynamic_device_scaler.Types.{ResourceSliceDevice, ResourceSliceInfo}
use dynamic_device_scaler.Usage.{device_with_uuid, is_device_resource_slice_red}

-- A listed device with the UUID, by its name.
pub record IsListed (device_id : Text) (slices : List ResourceSliceInfo) (slice : ResourceSliceInfo)
    (name : Text) : Type 0 where
  pub slice_in : In slice slices
  pub device : ResourceSliceDevice
  pub device_in : In device slice.devices
  pub same_id : device.uuid ≡ device_id
  pub same_name : device.name ≡ name

device_with_uuid-some :
    (device_id : Text) (ds : List ResourceSliceDevice) {name : Text}
    → device_with_uuid device_id ds ≡ some name
    → (d : ResourceSliceDevice) × In d ds × (d.uuid ≡ device_id) × (d.name ≡ name)
unfolding device_with_uuid
device_with_uuid-some device_id [] h = cc
device_with_uuid-some device_id (d ∷ ds) h = elim (Bool-cases (d.uuid == device_id)) [
  | inl e ↦ (d, inl refl, (==_iff d.uuid device_id).0 e, ground arith)
  | inr e ↦ let (d', m, p, q) = device_with_uuid-some device_id ds (rw e at h) in (d', inr m, p, q)
]

device_with_uuid-none :
    (device_id : Text) (ds : List ResourceSliceDevice)
    → device_with_uuid device_id ds ≡ none
    → (d : ResourceSliceDevice) → In d ds
    → d.uuid ≢ device_id
unfolding device_with_uuid
device_with_uuid-none device_id [] h d m = absurd m
device_with_uuid-none device_id (e ∷ ds) h d (inl p) =
    λ q. ground (arith, ==_iff e.uuid device_id, ap (λ (x : ResourceSliceDevice). x.uuid) p)
device_with_uuid-none device_id (e ∷ ds) h d (inr m) =
    device_with_uuid-none device_id ds (ground arith) d m

red-some :
    (device_id : Text) (slices : List ResourceSliceInfo) (slice : ResourceSliceInfo) (name : Text)
    → is_device_resource_slice_red device_id slices ≡ some (slice, name)
    → IsListed device_id slices slice name
unfolding is_device_resource_slice_red
red-some device_id [] slice name h = cc
red-some device_id (rs ∷ slices) slice name h =
    elim (Option-cases (device_with_uuid device_id rs.devices)) [
      | inl e ↦
          let x = red-some device_id slices slice name (rw e at h) in
          record {
            slice_in = inr x.slice_in;
            device = x.device;
            device_in = x.device_in;
            same_id = x.same_id;
            same_name = x.same_name;
          }
      | inr (n, e) ↦
          let (d, m, p, q) = device_with_uuid-some device_id rs.devices e in
          subst (λ (p : ResourceSliceInfo × Text). IsListed device_id (rs ∷ slices) p.0 p.1)
            (some-injective (rs, n) (slice, name) (rw e at h))
            (record { slice_in = inl refl; device = d; device_in = m; same_id = p; same_name = q })
    ]

red-none :
    (device_id : Text) (slices : List ResourceSliceInfo)
    → is_device_resource_slice_red device_id slices ≡ none
    → (slice : ResourceSliceInfo) (d : ResourceSliceDevice) → In slice slices
    → In d slice.devices
    → d.uuid ≢ device_id
unfolding is_device_resource_slice_red
red-none device_id [] h slice d m k = absurd m
red-none device_id (rs ∷ slices) h slice d m k =
    elim (Option-cases (device_with_uuid device_id rs.devices)) [
      | inl e ↦ elim m [
        | inl p ↦
            device_with_uuid-none device_id rs.devices e d
              (subst (λ (x : ResourceSliceInfo). In d x.devices) p k)
        | inr m' ↦ red-none device_id slices (rw e at h) slice d m' k
      ]
      | inr (n, e) ↦ absurd (some-ne-none (rs, n) (rw e at h))
    ]

-- A device that is found is listed by the slice, under the name and with the UUID; if none is
-- found, no listed device has the UUID.
pub is_device_resource_slice_red_lem :
    (device_id : Text) (slices : List ResourceSliceInfo)
    → ((slice : ResourceSliceInfo) (name : Text)
        → is_device_resource_slice_red device_id slices ≡ some (slice, name)
        → IsListed device_id slices slice name)
      × (is_device_resource_slice_red device_id slices ≡ none
          → (slice : ResourceSliceInfo) (d : ResourceSliceDevice) → In slice slices
          → In d slice.devices
          → d.uuid ≢ device_id)
is_device_resource_slice_red_lem device_id slices =
    (red-some device_id slices, red-none device_id slices)
