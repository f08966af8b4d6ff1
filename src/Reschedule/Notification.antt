-- ===== src/Reschedule/Notification.antt =====
-- RescheduleNotification of internal/utils/reschedule_utils.go: it tells the scheduler which
-- claims can be scheduled again, since the node has a free device for each of theirs.
pub mod Runs
pub mod Counts
pub mod Matching
pub mod Served
pub mod Serving
pub mod Outcome
use dynamic_device_scaler.Base.{
  ℕ, zero, suc, leb, Text, Bool, true, false, not, ◌&&◌, Option, none, some, List, [], ◌∷◌, length,
  get_elem?, set, any, contains, ◌==◌, text_eq, if◌then◌else◌,
}
use dynamic_device_scaler.Types.{
  Duration, Time, preparing, reschedule, state_eq, ResourceClaimInfo, ResourceSliceInfo,
}
use dynamic_device_scaler.Kube.{ComposableResource, is_online}
use dynamic_device_scaler.Effects.{
  pure, wrap, forget_error, ◌>>=◌, ◌>>◌, for_each, Environment, Program, request, observe,
}
use dynamic_device_scaler.LastUsed.{last_used_label, is_last_used_over_threshold}
use dynamic_device_scaler.Patch.{patch_composable_resource_annotation}
use dynamic_device_scaler.Usage.{is_device_resource_slice_red, is_device_used_by_pod}
use dynamic_device_scaler.Scaling.{is_nil}
use dynamic_device_scaler.Reschedule.{
  ascending, sort_by_time, get_unique_models_with_counts, count_at, keys_of,
  fabric_device_reschedule, set_devices_state, at_claim,
}

-- The tests of a resource that need no call: its model, its node, that it is not matched yet, that
-- it is online and not being deleted.
abbrev pub is_candidate : Text → Text → List Text → ComposableResource → Bool
is_candidate model node_name matched r =
    r.model == model
    && r.target_node == node_name
    && not (contains matched r.name)
    && is_online r.state
    && is_nil r.deletion_timestamp

module _ (env : Environment) (slices : List ResourceSliceInfo) (label_prefix : Text)
    (device_no_allocation : Duration) where
  pub free_at : ComposableResource → Option (ResourceSliceInfo × Text) → Program env Bool
  free_at r none = pure false
  free_at r (some (slice, device_name)) = do
    used ←
        wrap "failed to check if device is used by pod"
          (is_device_used_by_pod env device_name slice)
    if used
        then pure false
        else forget_error false
            (is_last_used_over_threshold env r label_prefix device_no_allocation false)

  -- Whether the resource is taken for a device of the model.
  pub is_free : Text → Text → List Text → ComposableResource → Program env Bool
  unfolding free_at
  is_free model node_name matched r =
      if is_candidate model node_name matched r
      then free_at r (is_device_resource_slice_red r.device_id slices)
      else pure false

  -- The loop over the resources for one model: the matched names with the new ones, or nothing if
  -- the resources run out.
  pub match_resources :
      Text → ℕ → Text → List Text → ℕ → List ComposableResource → Program env (Option (List Text))
  unfolding is_free
  match_resources model count node_name matched matched_count [] = pure none
  match_resources model count node_name matched matched_count (r ∷ rs) =
      is_free model node_name matched r >>= λ free. elim free [
        | false ↦ match_resources model count node_name matched matched_count rs
        | true ↦
            let rest =
              match_resources model count node_name (r.name ∷ matched) (suc matched_count) rs in
            if leb count (suc matched_count) then pure (some (r.name ∷ matched)) else rest
      ]

  -- The loop over the models of a claim (MiddleLoop).
  pub match_models :
      List (Text × ℕ)
      → Text
      → List ComposableResource
      → List Text
      → List Text
      → Program env (Option (List Text))
  unfolding match_resources
  match_models counts node_name resources matched [] = pure (some matched)
  match_models counts node_name resources matched (model ∷ models) =
      match_resources model (count_at model counts) node_name matched 0 resources >>= λ found.
      elim found [
        | none ↦ pure none
        | some matched' ↦ match_models counts node_name resources matched' models
      ]

  -- The loop over the matched resources.
  touch_all : Time → List Text → Program env (Unit {0})
  touch_all now names = for_each names λ name.
      wrap "failed to patch composable resource annotation" (
        patch_composable_resource_annotation env name (last_used_label label_prefix)
          (env.format_rfc3339 now))

  touch_matched : List Text → Program env (Unit {0})
  unfolding touch_all
  touch_matched matched = do
    now ← observe env.now
    names ← observe (env.range_keys matched)
    touch_all now names

  -- The rest of a round, once the claim has its resources.
  pub reschedule_claim :
      ResourceClaimInfo
      → ℕ
      → List Text
      → List ResourceClaimInfo
      → Program env (List ResourceClaimInfo)
  unfolding touch_matched
  reschedule_claim rc k matched claims = do
    rc' ←
        wrap "failed to set devices state"
          (set_devices_state env rc reschedule fabric_device_reschedule)
    touch_matched matched
    pure (set claims k rc')

  pub notify_claim :
      List ComposableResource
      → ResourceClaimInfo
      → ℕ
      → List ResourceClaimInfo
      → Program env (List ResourceClaimInfo)
  unfolding match_models reschedule_claim
  notify_claim resources rc k claims =
      if any (λ d. not (d.state == preparing)) rc.devices
      then pure claims
      else (let counts = get_unique_models_with_counts rc in
          observe (env.range_keys (keys_of counts)) >>= λ models.
          match_models counts rc.node_name resources [] models >>= λ found. elim found [
            | none ↦ pure claims
            | some matched ↦ reschedule_claim rc k matched claims
          ])

  pub notify_loop :
      List ComposableResource
      → ℕ
      → ℕ
      → List ResourceClaimInfo
      → Program env (List ResourceClaimInfo)
  unfolding notify_claim
  notify_loop resources zero k claims = pure claims
  notify_loop resources (suc n) k claims = at_claim (get_elem? claims k) (pure claims) λ rc.
      notify_claim resources rc k claims >>= λ claims'. notify_loop resources n (suc k) claims'

  abbrev pub notify_sorted :
      List ComposableResource → List ResourceClaimInfo → Program env (List ResourceClaimInfo)
  notify_sorted [] claims = pure claims
  notify_sorted (r ∷ rs) claims =
      let sorted = sort_by_time env ascending claims in
      notify_loop (r ∷ rs) (length sorted) 0 sorted

  unfoldable pub reschedule_notification :
      List ResourceClaimInfo → Program env (List ResourceClaimInfo)
  unfolding notify_loop sort_by_time
  reschedule_notification claims = do
    resources ← wrap "failed to list composableResource" (request env.list_resources)
    notify_sorted resources claims
