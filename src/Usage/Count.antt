-- ===== src/Usage/Count.antt =====
-- What GetConfiguredDeviceCount counts while the claims stay as they are.
use dynamic_device_scaler.Base.{
  ◌||◌, ℕ, suc, ◌+◌, Text, Bool, true, false, ◌&&◌, Option, none, some, List, [], ◌∷◌, ◌≡◌, refl,
  ◌∙◌, ap, count_if, Bool-cases, ◌==◌, text_eq, if◌then◌else◌, arith, inl, inr,
}
use dynamic_device_scaler.Types.{
  preparing, reschedule, state_eq, ResourceClaimDevice, ResourceClaimInfo, ResourceSliceInfo,
}
use dynamic_device_scaler.Kube.{ResourceClaim, ComposableResource, is_online}
use dynamic_device_scaler.Effects.{done, ok, Environment}
use dynamic_device_scaler.Usage.{
  is_device_resource_slice_red, is_claimed, is_preparing_or_reschedule, count_devices, count_claims,
  get_preparing_reschedule_devices_count, is_device_used_by_pod, is_used_at, is_counted,
  count_resources, get_configured_device_count,
}

-- The devices of the model that the claims of the node wait for.
abbrev pub demand : Text → Text → List ResourceClaimInfo → ℕ
demand model node_name [] = 0
demand model node_name (rc ∷ rcs) =
    (if rc.node_name == node_name
      then count_if (λ d. d.model == model && (d.state == preparing || d.state == reschedule))
          rc.devices
      else 0)
    + demand model node_name rcs

abbrev pub is_used_in : List ResourceClaim → Option (ResourceSliceInfo × Text) → Bool
is_used_in claims none = false
is_used_in claims (some (slice, name)) = is_claimed name slice claims

-- An online device of the model on the node that a slice lists and a claim has been given.
abbrev pub is_in_use :
    List ResourceClaim → List ResourceSliceInfo → Text → Text → ComposableResource → Bool
is_in_use claims slices model node_name r =
    r.target_node == node_name
    && r.model == model
    && is_online r.state
    && is_used_in claims (is_device_resource_slice_red r.device_id slices)

count_devices_lem :
    (model : Text) (count : ℕ) (ds : List ResourceClaimDevice)
    → count_devices model count ds ≡ count + count_if (is_preparing_or_reschedule model) ds
unfolding count_devices
count_devices_lem model count [] = omega arith
count_devices_lem model count (d ∷ ds) = elim (Bool-cases (is_preparing_or_reschedule model d)) [
  | inl e ↦ rw (e, count_devices_lem model (suc count) ds) (omega arith)
  | inr e ↦ rw (e, count_devices_lem model count ds) (omega arith)
]

count_claims_lem :
    (model node_name : Text) (count : ℕ) (rcs : List ResourceClaimInfo)
    → count_claims model node_name count rcs ≡ count + demand model node_name rcs
unfolding count_claims
count_claims_lem model node_name count [] = omega arith
count_claims_lem model node_name count (rc ∷ rcs) = elim (Bool-cases (rc.node_name == node_name)) [
  | inl e ↦
      rw
        (
          e,
          count_claims_lem model node_name (count_devices model count rc.devices) rcs,
          count_devices_lem model count rc.devices,
        )
        (omega arith)
  | inr e ↦ rw (e, count_claims_lem model node_name count rcs) (omega arith)
]

counted_step :
    (b : Bool) (count n : ℕ)
    → (if b then suc count else count) + n ≡ count + ((if b then 1 else 0) + n)
counted_step true count n = omega arith
counted_step false count n = omega arith

-- The list of the claims is answered, and is always this one.
abbrev pub ClaimsStay : Environment → List ResourceClaim → Type 0
ClaimsStay env claims = (s : env.State) → (env.list_claims s).0 ≡ done claims

module _ (env : Environment) (claims : List ResourceClaim) (stay : ClaimsStay env claims)
    (model node_name : Text) (slices : List ResourceSliceInfo) where
  is_used_at-result :
      (red : Option (ResourceSliceInfo × Text)) (s : env.State)
      → (is_used_at env red s).result ≡ ok (is_used_in claims red)
  unfolding is_device_used_by_pod
  is_used_at-result none s = refl
  is_used_at-result (some (slice, name)) s = rw (stay s)

  is_counted-result :
      (r : ComposableResource) (s : env.State)
      → (is_counted env model node_name slices r s).result
        ≡ ok (is_in_use claims slices model node_name r)
  unfolding is_counted
  is_counted-result r s =
      ground (arith, is_used_at-result (is_device_resource_slice_red r.device_id slices) s)

  count_resources-result :
      (count : ℕ) (rs : List ComposableResource) (s : env.State)
      → (count_resources env model node_name slices count rs s).result
        ≡ ok (count + count_if (is_in_use claims slices model node_name) rs)
  unfolding count_resources
  count_resources-result count [] s = ground arith
  count_resources-result count (r ∷ rs) s = rw (is_counted-result r s) (
      count_resources-result
        (if is_in_use claims slices model node_name r then suc count else count) rs _
      ∙ ap ok (counted_step (is_in_use claims slices model node_name r) count _))

  -- The count is the demand of the claims on the node, and the number of the listed resources that
  -- are in use there: it holds while the claims stay as they are and the resources can be listed.
  pub get_configured_device_count-result :
      (infos : List ResourceClaimInfo) (rs : List ComposableResource) (s : env.State)
      → (env.list_resources s).0 ≡ done rs
      → (get_configured_device_count env model node_name infos slices s).result
        ≡ ok (demand model node_name infos + count_if (is_in_use claims slices model node_name) rs)
  unfolding get_configured_device_count get_preparing_reschedule_devices_count
  get_configured_device_count-result infos rs s listed =
      rw
        (
          listed,
          count_resources-result 0 rs (env.list_resources s).1,
          count_claims_lem model node_name 0 infos,
        )
        (ground arith)
