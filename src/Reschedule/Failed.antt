-- ===== src/Reschedule/Failed.antt =====
-- RescheduleFailedNotification of internal/utils/reschedule_utils.go: it fails the claims whose
-- devices cannot be attached to the node. The search of the slices for the device (rsLoop) sets a
-- variable that nothing reads, and only the error of its list call is left of it.
pub mod Runs
pub mod Verdicts
pub mod Settled
pub mod Outcome
pub mod Safety
use dynamic_device_scaler.Base.{
  ℕ, zero, suc, ℤ, pos, ltb_ℤ, Text, Bool, true, false, not, ◌&&◌, Option, none, some, List, [],
  ◌∷◌, length, get_elem?, set, any, ◌==◌, text_eq, if◌then◌else◌,
}
use dynamic_device_scaler.Types.{
  DeviceState, preparing, failed, state_eq, ComposableDraSpec, NodeInfo, ResourceClaimDevice,
  ResourceClaimInfo, ResourceSliceInfo,
}
use dynamic_device_scaler.Kube.{ComposabilityRequest, ComposableResource, is_online_or_attaching}
use dynamic_device_scaler.Effects.{pure, wrap, ◌>>=◌, ◌>>◌, Environment, Program, request, observe}
use dynamic_device_scaler.Models.{is_device_coexistence, get_model_limit}
use dynamic_device_scaler.Usage.{get_configured_device_count}
use dynamic_device_scaler.Reschedule.{
  descending, sort_by_time, get_unique_models_with_counts, keys_of, fabric_device_failed,
  set_devices_state, at_claim,
}

-- What the checks of a claim come to: the claim is passed over, it fails, it fails together with
-- the claim at an index, or no check objects.
pub data Verdict : Type 0 where
  skip clash : Verdict
  clash_with : ℕ → ResourceClaimInfo → Verdict
  fits : Verdict

-- What the loop over the claims of one node reads.
pub record Scene : Type 0 where
  pub node : NodeInfo
  pub slices : List ResourceSliceInfo
  pub spec : ComposableDraSpec
  pub requests : List ComposabilityRequest
  pub resources : List ComposableResource

abbrev pub scene :
    NodeInfo
    → List ResourceSliceInfo
    → ComposableDraSpec
    → List ComposabilityRequest
    → List ComposableResource
    → Scene
scene node slices spec requests resources = record {
  node = node;
  slices = slices;
  spec = spec;
  requests = requests;
  resources = resources;
}

abbrev or_next : Verdict → Verdict → Verdict
or_next fits next = next
or_next v next = v

module _ (sc : Scene) where
  abbrev pub incompatible : Text → Text → Bool
  incompatible model1 model2 = not (is_device_coexistence model1 model2 sc.spec)

  -- Another device of the same claim. The source also asks for another index, which a device of
  -- another model has.
  abbrev pub clashes_in_claim : ResourceClaimDevice → ResourceClaimDevice → Bool
  clashes_in_claim d other = not (d.model == other.model) && incompatible d.model other.model

  abbrev pub clashes_with_request :
      ResourceClaimInfo → ResourceClaimDevice → ComposabilityRequest → Bool
  clashes_with_request rc d cr =
      ltb_ℤ (pos 0) cr.resource.size
      && cr.resource.target_node == rc.node_name
      && incompatible d.model cr.resource.model

  abbrev pub clashes_with_resource :
      ResourceClaimInfo → ResourceClaimDevice → ComposableResource → Bool
  clashes_with_resource rc d r =
      is_online_or_attaching r.state
      && r.target_node == rc.node_name
      && incompatible d.model r.model

  abbrev pub clashes_with_claim : ResourceClaimInfo → ResourceClaimDevice → ResourceClaimInfo → Bool
  clashes_with_claim rc d rc2 =
      not (rc.name == rc2.name)
      && any (λ d2. d2.state == preparing && clashes_in_claim d d2) rc2.devices

  -- The first claim that a device clashes with, and its index.
  clash_in : ResourceClaimInfo → ResourceClaimDevice → ℕ → List ResourceClaimInfo → Verdict
  clash_in rc d i [] = fits
  clash_in rc d i (rc2 ∷ rcs) =
      if clashes_with_claim rc d rc2 then clash_with i rc2 else clash_in rc d (suc i) rcs

  device_verdict : ResourceClaimInfo → List ResourceClaimInfo → ResourceClaimDevice → Verdict
  device_verdict rc claims d =
      if not (d.state == preparing)
      then skip
      else if any (clashes_in_claim d) rc.devices
      then clash
      else if any (clashes_with_request rc d) sc.requests
      then clash
      else if any (clashes_with_resource rc d) sc.resources
      then clash
      else clash_in rc d 0 claims

  -- The loop over the devices of a claim, up to the first that objects.
  pub devices_verdict :
      ResourceClaimInfo → List ResourceClaimInfo → List ResourceClaimDevice → Verdict
  devices_verdict rc claims [] = fits
  devices_verdict rc claims (d ∷ ds) =
      or_next (device_verdict rc claims d) (devices_verdict rc claims ds)

  module _ (env : Environment) where
    fail_claim : ResourceClaimInfo → Program env ResourceClaimInfo
    fail_claim rc =
        wrap "failed to set devices state" (set_devices_state env rc failed fabric_device_failed)

    -- The loop over the models of a claim. It goes on after a failure.
    check_limits :
        ResourceClaimInfo
        → ℕ
        → List Text
        → List ResourceClaimInfo
        → Program env (List ResourceClaimInfo)
    check_limits rc k [] claims = pure claims
    check_limits rc k (model ∷ models) claims = do
      count ←
          wrap "failed to get configured device count"
            (get_configured_device_count env model sc.node.name claims sc.slices)
      claims' ←
          (if ltb_ℤ (get_model_limit sc.node model).0 (pos count)
            then (fail_claim rc >>= λ rc'. pure (set claims k rc'))
            else pure claims)
      check_limits rc k models claims'

    judge :
        ResourceClaimInfo
        → ℕ
        → List ResourceClaimInfo
        → Verdict
        → Program env (List ResourceClaimInfo)
    judge rc k claims skip = pure claims
    judge rc k claims clash = do rc' ← fail_claim rc; pure (set claims k rc')
    judge rc k claims (clash_with i rc2) = do
      rc' ← fail_claim rc
      rc2' ← fail_claim rc2
      pure (set (set claims k rc') i rc2')
    judge rc k claims fits = do
      models ← observe (env.range_keys (keys_of (get_unique_models_with_counts rc)))
      check_limits rc k models claims

    -- The loop over the claims from an index on, with the number of rounds left.
    pub failed_loop : ℕ → ℕ → List ResourceClaimInfo → Program env (List ResourceClaimInfo)
    unfolding judge devices_verdict device_verdict clash_in check_limits fail_claim
    failed_loop zero k claims = pure claims
    failed_loop (suc n) k claims = at_claim (get_elem? claims k) (pure claims) λ rc.
        judge rc k claims (devices_verdict rc claims rc.devices) >>= λ claims'.
        failed_loop n (suc k) claims'

module _ (env : Environment) where
  unfoldable pub reschedule_failed_notification :
      NodeInfo
      → List ResourceClaimInfo
      → List ResourceSliceInfo
      → ComposableDraSpec
      → Program env (List ResourceClaimInfo)
  unfolding failed_loop sort_by_time
  reschedule_failed_notification node claims slices spec = do
    requests ← wrap "failed to list composabilityRequestList" (request env.list_requests)
    resources ← wrap "failed to list composableResource" (request env.list_resources)
    _ ← wrap "failed to list ResourceSlices" (request env.list_slices)
    let sorted = sort_by_time env descending claims
    failed_loop (scene node slices spec requests resources) env (length sorted) 0 sorted
