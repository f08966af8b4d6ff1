-- ===== src/Reschedule/Notification/Runs.antt =====
-- RescheduleNotification as a sequence of calls that never panics.
use dynamic_device_scaler.Base.{
  ℕ, zero, suc, refl, leb, Text, false, not, Option, none, some, List, [], ◌∷◌, length, get_elem?,
  set, any, ◌==◌,
}
use dynamic_device_scaler.Types.{
  Duration, Time, preparing, reschedule, state_eq, ResourceClaimInfo, ResourceSliceInfo,
}
use dynamic_device_scaler.Kube.{ComposableResource}
use dynamic_device_scaler.Effects.{
  Environment, wrap, request, observe, Runs, Any, lists_resources, pure-Runs, read-Runs, range-Runs,
  now-Runs, wrap-Runs, forget_error-Runs, for_each-Runs, >>=-Runs, if-Runs, test-Runs, option-Runs,
}
use dynamic_device_scaler.LastUsed.{last_used_label}
use dynamic_device_scaler.LastUsed.Runs.{is_last_used_over_threshold-Runs}
use dynamic_device_scaler.Patch.Runs.{patch_composable_resource_annotation-Runs}
use dynamic_device_scaler.Usage.{is_device_resource_slice_red}
use dynamic_device_scaler.Usage.Runs.{is_device_used_by_pod-Runs}
use dynamic_device_scaler.Reschedule.{
  ascending, sort_by_time, get_unique_models_with_counts, count_at, keys_of,
  fabric_device_reschedule,
}
use dynamic_device_scaler.Reschedule.Runs.{set_devices_state-Runs, at_claim-Runs}
use dynamic_device_scaler.Reschedule.Notification.{
  is_candidate, free_at, is_free, match_resources, match_models, touch_all, touch_matched,
  reschedule_claim, notify_claim, notify_loop, notify_sorted, reschedule_notification,
}

module _ (env : Environment) (slices : List ResourceSliceInfo) (label_prefix : Text)
    (threshold : Duration) where
  free_at-Runs :
      (r : ComposableResource) (o : Option (ResourceSliceInfo × Text))
      → Runs env Any (free_at env slices label_prefix threshold r o)
  unfolding free_at
  free_at-Runs r none = pure-Runs false tt
  free_at-Runs r (some (slice, device_name)) =
      >>=-Runs {Q = Any} _ _ (wrap-Runs _ _ (is_device_used_by_pod-Runs env device_name slice))
        λ used _. if-Runs used _ _ (pure-Runs false tt) (
          forget_error-Runs false _
            (is_last_used_over_threshold-Runs env r label_prefix threshold false))

  is_free-Runs :
      (model node_name : Text) (matched : List Text) (r : ComposableResource)
      → Runs env Any (is_free env slices label_prefix threshold model node_name matched r)
  unfolding is_free
  is_free-Runs model node_name matched r =
      if-Runs (is_candidate model node_name matched r) _ _
        (free_at-Runs r (is_device_resource_slice_red r.device_id slices)) (pure-Runs false tt)

  match_resources-Runs :
      (model : Text) (count : ℕ) (node_name : Text) (matched : List Text) (matched_count : ℕ)
      (rs : List ComposableResource)
      → Runs env Any (
          match_resources env slices label_prefix threshold model count node_name matched
            matched_count rs)
  unfolding match_resources
  match_resources-Runs model count node_name matched matched_count [] = pure-Runs none tt
  match_resources-Runs model count node_name matched matched_count (r ∷ rs) =
      >>=-Runs {Q = Any} _ _ (is_free-Runs model node_name matched r) λ free _.
        test-Runs free _ _
          (if-Runs (leb count (suc matched_count)) _ _ (pure-Runs _ tt)
            (match_resources-Runs model count node_name (r.name ∷ matched) (suc matched_count) rs))
          (match_resources-Runs model count node_name matched matched_count rs)

  match_models-Runs :
      (counts : List (Text × ℕ)) (node_name : Text) (rs : List ComposableResource)
      (matched models : List Text)
      → Runs env Any
          (match_models env slices label_prefix threshold counts node_name rs matched models)
  unfolding match_models
  match_models-Runs counts node_name rs matched [] = pure-Runs (some matched) tt
  match_models-Runs counts node_name rs matched (model ∷ models) =
      >>=-Runs {Q = Any} _ _
        (match_resources-Runs model (count_at model counts) node_name matched 0 rs)
        λ found _.
          option-Runs found _ _ (pure-Runs none tt)
            λ matched'. match_models-Runs counts node_name rs matched' models

  touch_all-Runs :
      (now : Time) (names : List Text)
      → Runs env Any (touch_all env slices label_prefix threshold now names)
  unfolding touch_all
  touch_all-Runs now names = for_each-Runs names _ λ name.
      wrap-Runs "failed to patch composable resource annotation" _ (
        patch_composable_resource_annotation-Runs env name (last_used_label label_prefix)
          (env.format_rfc3339 now))

  touch_matched-Runs :
      (matched : List Text) → Runs env Any (touch_matched env slices label_prefix threshold matched)
  unfolding touch_matched
  touch_matched-Runs matched = >>=-Runs {Q = Any} (observe env.now) _ (now-Runs env) λ now _.
      >>=-Runs {Q = Any} (observe (env.range_keys matched)) _ (range-Runs env matched)
        λ names _. touch_all-Runs now names

  reschedule_claim-Runs :
      (rc : ResourceClaimInfo) (k : ℕ) (matched : List Text) (claims : List ResourceClaimInfo)
      → Runs env Any (reschedule_claim env slices label_prefix threshold rc k matched claims)
  unfolding reschedule_claim
  reschedule_claim-Runs rc k matched claims =
      >>=-Runs {Q = Any} _ _
        (wrap-Runs _ _ (set_devices_state-Runs env rc reschedule fabric_device_reschedule))
        λ rc' _.
          >>=-Runs {Q = Any} _ _ (touch_matched-Runs matched) λ _ _. pure-Runs (set claims k rc') tt

  notify_claim-Runs :
      (rs : List ComposableResource) (rc : ResourceClaimInfo) (k : ℕ)
      (claims : List ResourceClaimInfo)
      → Runs env Any (notify_claim env slices label_prefix threshold rs rc k claims)
  unfolding notify_claim
  notify_claim-Runs rs rc k claims =
      let counts = get_unique_models_with_counts rc in
      if-Runs (any (λ d. not (d.state == preparing)) rc.devices) _ _ (pure-Runs claims tt) (
        >>=-Runs {Q = Any} (observe (env.range_keys (keys_of counts))) _
          (range-Runs env (keys_of counts))
          λ models _.
            >>=-Runs {Q = Any} _ _ (match_models-Runs counts rc.node_name rs [] models) λ found _.
              option-Runs found _ _ (pure-Runs claims tt)
                λ matched. reschedule_claim-Runs rc k matched claims)

  notify_loop-Runs :
      (rs : List ComposableResource) (n k : ℕ) (claims : List ResourceClaimInfo)
      → Runs env Any (notify_loop env slices label_prefix threshold rs n k claims)
  unfolding notify_loop
  notify_loop-Runs rs zero k claims = pure-Runs claims tt
  notify_loop-Runs rs (suc n) k claims =
      at_claim-Runs env (get_elem? claims k) _ _ (pure-Runs claims tt) λ rc.
        >>=-Runs {Q = Any} _ _ (notify_claim-Runs rs rc k claims)
          λ claims' _. notify_loop-Runs rs n (suc k) claims'

  notify_sorted-Runs :
      (rs : List ComposableResource) (claims : List ResourceClaimInfo)
      → Runs env Any (notify_sorted env slices label_prefix threshold rs claims)
  notify_sorted-Runs [] claims = pure-Runs claims tt
  notify_sorted-Runs (r ∷ rs) claims =
      let sorted = sort_by_time env ascending claims in
      notify_loop-Runs (r ∷ rs) (length sorted) 0 sorted

  pub reschedule_notification-Runs :
      (claims : List ResourceClaimInfo)
      → Runs env Any (reschedule_notification env slices label_prefix threshold claims)
  unfolding reschedule_notification
  reschedule_notification-Runs claims =
      >>=-Runs {Q = Any} (wrap _ (request env.list_resources)) _
        (read-Runs env "failed to list composableResource" env.list_resources
          (λ s. lists_resources refl))
        λ rs _. notify_sorted-Runs rs claims
