-- ===== src/Reschedule/Failed/Runs.antt =====
-- RescheduleFailedNotification as a sequence of calls that never panics.
use dynamic_device_scaler.Base.{
  ℕ, zero, suc, refl, pos, ltb_ℤ, Text, List, [], ◌∷◌, length, get_elem?, set,
}
use dynamic_device_scaler.Types.{ComposableDraSpec, NodeInfo, ResourceClaimInfo, ResourceSliceInfo}
use dynamic_device_scaler.Effects.{
  Environment, wrap, request, observe, Runs, Any, lists_requests, lists_resources, lists_slices,
  pure-Runs, read-Runs, range-Runs, wrap-Runs, >>=-Runs, if-Runs,
}
use dynamic_device_scaler.Models.{get_model_limit}
use dynamic_device_scaler.Usage.Runs.{get_configured_device_count-Runs}
use dynamic_device_scaler.Types.{failed}
use dynamic_device_scaler.Reschedule.{
  descending, sort_by_time, get_unique_models_with_counts, keys_of, fabric_device_failed,
}
use dynamic_device_scaler.Reschedule.Runs.{set_devices_state-Runs, at_claim-Runs}
use dynamic_device_scaler.Reschedule.Failed.{
  Verdict, skip, clash, clash_with, fits, Scene, scene, devices_verdict, fail_claim, check_limits,
  judge, failed_loop, reschedule_failed_notification,
}

module _ (sc : Scene) (env : Environment) where
  fail_claim-Runs : (rc : ResourceClaimInfo) → Runs env Any (fail_claim sc env rc)
  unfolding fail_claim
  fail_claim-Runs rc = wrap-Runs _ _ (set_devices_state-Runs env rc failed fabric_device_failed)

  check_limits-Runs :
      (rc : ResourceClaimInfo) (k : ℕ) (models : List Text) (claims : List ResourceClaimInfo)
      → Runs env Any (check_limits sc env rc k models claims)
  unfolding check_limits
  check_limits-Runs rc k [] claims = pure-Runs claims tt
  check_limits-Runs rc k (model ∷ models) claims =
      >>=-Runs {Q = Any} _ _
        (wrap-Runs _ _ (get_configured_device_count-Runs env model sc.node.name claims sc.slices))
        λ count _.
          >>=-Runs {Q = Any} _ _
            (if-Runs (ltb_ℤ (get_model_limit sc.node model).0 (pos count)) _ _
              (>>=-Runs {Q = Any} _ _ (fail_claim-Runs rc) λ rc' _. pure-Runs (set claims k rc') tt)
              (pure-Runs claims tt))
            λ claims' _. check_limits-Runs rc k models claims'

  judge-Runs :
      (rc : ResourceClaimInfo) (k : ℕ) (claims : List ResourceClaimInfo) (v : Verdict)
      → Runs env Any (judge sc env rc k claims v)
  unfolding judge
  judge-Runs rc k claims skip = pure-Runs claims tt
  judge-Runs rc k claims clash =
      >>=-Runs {Q = Any} _ _ (fail_claim-Runs rc) λ rc' _. pure-Runs (set claims k rc') tt
  judge-Runs rc k claims (clash_with i rc2) = >>=-Runs {Q = Any} _ _ (fail_claim-Runs rc) λ rc' _.
      >>=-Runs {Q = Any} _ _ (fail_claim-Runs rc2)
        λ rc2' _. pure-Runs (set (set claims k rc') i rc2') tt
  judge-Runs rc k claims fits =
      >>=-Runs {Q = Any} (observe (env.range_keys (keys_of (get_unique_models_with_counts rc)))) _
        (range-Runs env (keys_of (get_unique_models_with_counts rc)))
        λ models _. check_limits-Runs rc k models claims

  pub failed_loop-Runs :
      (n k : ℕ) (claims : List ResourceClaimInfo) → Runs env Any (failed_loop sc env n k claims)
  unfolding failed_loop
  failed_loop-Runs zero k claims = pure-Runs claims tt
  failed_loop-Runs (suc n) k claims =
      at_claim-Runs env (get_elem? claims k) _ _ (pure-Runs claims tt) λ rc.
        >>=-Runs {Q = Any} _ _ (judge-Runs rc k claims (devices_verdict sc rc claims rc.devices))
          λ claims' _. failed_loop-Runs n (suc k) claims'

pub reschedule_failed_notification-Runs :
    (env : Environment) (node : NodeInfo) (claims : List ResourceClaimInfo)
    (slices : List ResourceSliceInfo) (spec : ComposableDraSpec)
    → Runs env Any (reschedule_failed_notification env node claims slices spec)
unfolding reschedule_failed_notification
reschedule_failed_notification-Runs env node claims slices spec =
    >>=-Runs {Q = Any} (wrap _ (request env.list_requests)) _
      (read-Runs env "failed to list composabilityRequestList" env.list_requests
        (λ s. lists_requests refl))
      λ requests _.
        >>=-Runs {Q = Any} (wrap _ (request env.list_resources)) _
          (read-Runs env "failed to list composableResource" env.list_resources
            (λ s. lists_resources refl))
          λ resources _.
            >>=-Runs {Q = Any} (wrap _ (request env.list_slices)) _
              (read-Runs env "failed to list ResourceSlices" env.list_slices
                (λ s. lists_slices refl))
              λ _ _.
                let sorted = sort_by_time env descending claims in
                failed_loop-Runs (scene node slices spec requests resources) env (length sorted) 0
                  sorted
