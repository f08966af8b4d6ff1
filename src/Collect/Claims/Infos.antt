-- ===== src/Collect/Claims/Infos.antt =====
-- Which claims GetResourceClaimInfo lists, and what it says of them.
use dynamic_device_scaler.Base.{
  Bool, true, false, not, Option, none, some, List, [], ◌∷◌, ◌≡◌, refl, subst, In, All,
  All-map_prop, count_if, length, inl, inr, arith,
}
use dynamic_device_scaler.Types.{ComposableDraSpec, ResourceClaimDevice, ResourceClaimInfo}
use dynamic_device_scaler.Kube.{
  DeviceStatus, DeviceResult, Allocation, ResourceSlice, ResourceClaim,
}
use dynamic_device_scaler.Effects.{ok}
use dynamic_device_scaler.Effects.Results.{result_bind, ok-injective, if_cases}
use dynamic_device_scaler.Collect.Slices.{is_empty}
use dynamic_device_scaler.Collect.Claims.{model_of, device_state, claim_devices, selected_node}

-- A result that the claim waits for, since it has binding conditions.
abbrev pub is_bound : DeviceResult → Bool
is_bound r = not (is_empty r.binding_conditions)

-- A device that is listed for a result of the allocation.
pub record DeviceOf (spec : ComposableDraSpec) (slices : List ResourceSlice)
    (statuses : List DeviceStatus) (results : List DeviceResult) (d : ResourceClaimDevice)
    : Type 0 where
  pub result : DeviceResult
  pub member : In result results
  pub bound : is_bound result ≡ true
  pub same_name : d.name ≡ result.device
  pub same_driver : d.driver ≡ result.driver
  pub same_pool : d.pool ≡ result.pool
  pub same_state : d.state ≡ device_state result statuses
  pub same_model : model_of spec slices result ≡ ok d.model

-- A claim that is listed: it is reserved and allocated, and has a device for each result that has
-- binding conditions.
pub record InfoOf (spec : ComposableDraSpec) (slices : List ResourceSlice)
    (claims : List ResourceClaim) (info : ResourceClaimInfo) : Type 0 where
  pub claim : ResourceClaim
  pub allocation : Allocation
  pub member : In claim claims
  pub reserved : is_empty claim.reserved_for ≡ false
  pub allocated : claim.allocation ≡ some allocation
  pub same_name : info.name ≡ claim.name
  pub same_namespace : info.namespace ≡ claim.namespace
  pub same_node : selected_node allocation.node_selector ≡ ok info.node_name
  pub some_device : is_empty info.devices ≡ false
  pub each : All (DeviceOf spec slices claim.devices allocation.results) info.devices
  pub every : length info.devices ≡ count_if is_bound allocation.results

module _ (spec : ComposableDraSpec) (slices : List ResourceSlice) where
  DeviceOf-cons :
      (statuses : List DeviceStatus) (r : DeviceResult) (results : List DeviceResult)
      (d : ResourceClaimDevice)
      → DeviceOf spec slices statuses results d
      → DeviceOf spec slices statuses (r ∷ results) d
  DeviceOf-cons statuses r results d h = record {
    result = h.result;
    member = inr h.member;
    bound = h.bound;
    same_name = h.same_name;
    same_driver = h.same_driver;
    same_pool = h.same_pool;
    same_state = h.same_state;
    same_model = h.same_model;
  }

  pub claim_devices-DeviceOf :
      (statuses : List DeviceStatus) (results : List DeviceResult) (out : List ResourceClaimDevice)
      → claim_devices spec slices statuses results ≡ ok out
      → All (DeviceOf spec slices statuses results) out × (length out ≡ count_if is_bound results)
  unfolding claim_devices
  claim_devices-DeviceOf statuses [] out h =
      subst (λ out. All (DeviceOf spec slices statuses []) out × (length out ≡ 0))
        (ok-injective [] out h) (tt, refl)
  claim_devices-DeviceOf statuses (r ∷ results) out h =
      let rest = claim_devices spec slices statuses results in
      elim (if_cases (is_empty r.binding_conditions) rest _ h) [
        | inl (e, k) ↦
            let (each, count) = claim_devices-DeviceOf statuses results out k in
            (All-map_prop out (DeviceOf-cons statuses r results) each, rw e (omega (arith, count)))
        | inr (e, k) ↦
            let (model, p, k1) = result_bind (model_of spec slices r) _ k in
            let (devices, q, k2) = result_bind rest _ k1 in
            let (each, count) = claim_devices-DeviceOf statuses results devices q in
            subst
              (λ out.
                All (DeviceOf spec slices statuses (r ∷ results)) out
                × (length out ≡ count_if is_bound (r ∷ results)))
              (ok-injective _ out k2)
              (
                (
                  record {
                    result = r;
                    member = inl refl;
                    bound = rw e refl;
                    same_name = refl;
                    same_driver = refl;
                    same_pool = refl;
                    same_state = refl;
                    same_model = p;
                  },
                  All-map_prop devices (DeviceOf-cons statuses r results) each,
                ),
                rw e (omega (arith, count)),
              )
      ]

  -- What may come of one claim.
  abbrev Found : List ResourceClaim → Option ResourceClaimInfo → Type 0
  Found claims none = Unit
  Found claims (some info) = InfoOf spec slices claims info
