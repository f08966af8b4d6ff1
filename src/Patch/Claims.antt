-- ===== src/Patch/Claims.antt =====
-- What PatchResourceClaimDeviceConditions sends.
use dynamic_device_scaler.Base.{
  ◌≤◌, Text, true, none, List, [], ◌∷◌, ◌≡◌, ◌≢◌, ap, All, length, text_eq, arith,
}
use dynamic_device_scaler.Kube.{DeviceStatus, ResourceClaim, Write, patch_claim_devices}
use dynamic_device_scaler.Conditions.{condition_true, has_condition_with_status}
use dynamic_device_scaler.Effects.{
  pure, wrap, Environment, request, observe, NamesAgree, Ensures, Always, pure-Ensures,
  wrap-Ensures, request-Ensures, observe-Ensures, read-writes, >>=-Ensures, >>=-writes-le,
}
use dynamic_device_scaler.Patch.{
  finished, max_retries, conditions_of, with_conditions, with_condition, prepared_devices,
  patch_devices, conditions_round, patch_resource_claim_device_conditions,
}
use dynamic_device_scaler.Patch.Conditions.{with_condition_lem}
use dynamic_device_scaler.Patch.Requests.{submit_round-Ensures, submit_round-writes-le}
use dynamic_device_scaler.Patch.Retry.{retry-Ensures, retry-writes-le}

abbrev pub HasCondition : Text → DeviceStatus → Type 0
HasCondition type d = has_condition_with_status (conditions_of d) type condition_true ≡ true

-- A write of the devices of one claim in which each device has the condition.
pub record SetsCondition (name namespace type : Text) (w : Write) : Type 0 where
  pub devices : List DeviceStatus
  pub written : w ≡ patch_claim_devices name namespace devices
  pub some_device : devices ≢ []
  pub on_each : All (HasCondition type) devices

module _ (env : Environment) where
  with_conditions-Ensures :
      {P : Write → Type 0} (type : Text) (ds : List DeviceStatus)
      → Ensures P
          (λ out. All (HasCondition type) out × (length out ≡ length ds))
          (with_conditions env type ds)
  unfolding with_conditions
  with_conditions-Ensures type [] = pure-Ensures [] (omega arith)
  with_conditions-Ensures type (d ∷ ds) =
      >>=-Ensures {Q = Always} (observe env.now) _ (observe-Ensures env.now (λ s. tt)) λ now _.
        >>=-Ensures (with_conditions env type ds) _ (with_conditions-Ensures type ds) λ rest h.
          pure-Ensures (with_condition type now d ∷ rest)
            (((with_condition_lem type now d).0, h.0), omega (arith, h.1))

  with_conditions-writes :
      (type : Text) (ds : List DeviceStatus) (s : env.State)
      → length (with_conditions env type ds s).writes ≤ 0
  unfolding with_conditions
  with_conditions-writes type [] s = omega arith
  with_conditions-writes type (d ∷ ds) s =
      >>=-writes-le (with_conditions env type ds)
        (λ rest. pure (with_condition type (env.now s).0 d ∷ rest)) 0 0 (env.now s).1
        (with_conditions-writes type ds (env.now s).1) (λ rest t. (omega arith))

  module _ (named : NamesAgree env) (name namespace type : Text) where
    patch_devices-Ensures :
        (claim : ResourceClaim) (ds : List DeviceStatus)
        → (claim.name ≡ name) × (claim.namespace ≡ namespace)
        → Ensures (SetsCondition name namespace type) Always (patch_devices env type claim ds)
    unfolding patch_devices
    patch_devices-Ensures claim [] h = pure-Ensures finished tt
    patch_devices-Ensures claim (d ∷ ds) (p, q) =
        >>=-Ensures (with_conditions env type (d ∷ ds)) _ (with_conditions-Ensures type (d ∷ ds))
          λ out h. submit_round-Ensures env _ _ (record {
            devices = out;
            written = rw (p, q);
            some_device = λ e. (omega (arith, h.1, ap length e));
            on_each = h.0;
          })

    conditions_round-Ensures :
        Ensures
          (SetsCondition name namespace type)
          Always
          (conditions_round env name namespace type)
    unfolding conditions_round
    conditions_round-Ensures =
        >>=-Ensures (wrap _ (request (env.get_claim name namespace))) _
          (wrap-Ensures _ _
            (request-Ensures (env.get_claim name namespace) (named.claim_named name namespace)))
          λ claim h. patch_devices-Ensures claim (prepared_devices claim) h

    -- The step of a larger program.
    pub patch_resource_claim_device_conditions-Ensures :
        Ensures
          (SetsCondition name namespace type)
          Always
          (patch_resource_claim_device_conditions env name namespace type)
    unfolding patch_resource_claim_device_conditions
    patch_resource_claim_device_conditions-Ensures =
        retry-Ensures max_retries none (conditions_round env name namespace type)
          conditions_round-Ensures

  patch_devices-writes-le :
      (type : Text) (claim : ResourceClaim) (ds : List DeviceStatus) (s : env.State)
      → length (patch_devices env type claim ds s).writes ≤ 1
  unfolding patch_devices
  patch_devices-writes-le type claim [] s = omega arith
  patch_devices-writes-le type claim (d ∷ ds) s =
      >>=-writes-le (with_conditions env type (d ∷ ds)) _ 0 1 s
        (with_conditions-writes type (d ∷ ds) s)
        λ out t.
          submit_round-writes-le env "failed to patch ResourceClaim status"
            (patch_claim_devices claim.name claim.namespace out) t

  conditions_round-writes-le :
      (name namespace type : Text) (s : env.State)
      → length (conditions_round env name namespace type s).writes ≤ 1
  unfolding conditions_round
  conditions_round-writes-le name namespace type s =
      >>=-writes-le (wrap _ (request (env.get_claim name namespace))) _ 0 1 s
        (read-writes "failed to get ResourceClaim" (env.get_claim name namespace) s)
        λ claim t. patch_devices-writes-le type claim (prepared_devices claim) t

  -- Whatever the server answers, the only writes are patches of this claim, at most two, in each of
  -- which there is a device and every device has the condition with status True.
  pub patch_resource_claim_device_conditions-sends :
      NamesAgree env
      → (name namespace type : Text) (s : env.State)
      → All
          (SetsCondition name namespace type)
          (patch_resource_claim_device_conditions env name namespace type s).writes
        × (length (patch_resource_claim_device_conditions env name namespace type s).writes
            ≤ max_retries)
  unfolding patch_resource_claim_device_conditions
  patch_resource_claim_device_conditions-sends named name namespace type s = (
    (patch_resource_claim_device_conditions-Ensures named name namespace type).sends s,
    retry-writes-le max_retries none (conditions_round env name namespace type) s
        (conditions_round-writes-le name namespace type),
  )
