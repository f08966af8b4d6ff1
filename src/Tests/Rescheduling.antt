-- ===== src/Tests/Rescheduling.antt =====
-- The two notifications at a concrete input.
use dynamic_device_scaler.Base.{
  ℕ, pos, true, List, [], ◌∷◌, ◌≡◌, refl, ◌⊎◌, some, All, get_elem?, length, bytes, text_beq,
  text_eq,
}
use dynamic_device_scaler.Types.{failed, reschedule, ResourceClaimInfo}
use dynamic_device_scaler.Kube.{ComposabilityRequest, ComposableResource}
use dynamic_device_scaler.Models.{is_device_coexistence, get_model_limit}
use dynamic_device_scaler.Usage.{
  is_device_resource_slice_red, is_device_used_by_pod, get_preparing_reschedule_devices_count,
  get_configured_device_count,
}
use dynamic_device_scaler.Patch.{
  patch_composable_resource_annotation, patch_resource_claim_device_conditions, prepared_devices,
  with_conditions, with_condition,
}
use dynamic_device_scaler.Effects.{for_each, ok, done, OnOk}
use dynamic_device_scaler.LastUsed.{is_last_used_over_threshold}
use dynamic_device_scaler.Reschedule.{
  ascending, descending, sort_by_time, with_state, set_devices_state, get_unique_models_with_counts,
}
use dynamic_device_scaler.Reschedule.States.{all_preparing, AllBecome}
use dynamic_device_scaler.Reschedule.Failed.{scene, reschedule_failed_notification}
use dynamic_device_scaler.Reschedule.Failed.Outcome.{FailsClaim}
use dynamic_device_scaler.Reschedule.Failed.Safety.{
  IsCompatible, reschedule_failed_notification-claims, reschedule_failed_notification-IsCompatible,
}
use dynamic_device_scaler.Reschedule.Notification.{reschedule_notification}
use dynamic_device_scaler.Reschedule.Notification.Served.{Notifies}
use dynamic_device_scaler.Reschedule.Notification.Outcome.{reschedule_notification-Serves}
use dynamic_device_scaler.Tests.Cluster.{at_noon, at_noon-NamesAgree, at_noon-RangesOver}
use dynamic_device_scaler.Tests.Samples.{
  node_info, spec, claim_x, claim_y, claim_z, claim_infos, slice_infos, resource_infos, cluster,
}

reschedule_failed_notification-claims_example :
    All
      (FailsClaim (sort_by_time at_noon descending claim_infos))
      (reschedule_failed_notification at_noon node_info claim_infos slice_infos spec cluster).writes
    × OnOk
        (AllBecome failed (sort_by_time at_noon descending claim_infos))
        (reschedule_failed_notification at_noon node_info claim_infos slice_infos spec
          cluster).result
reschedule_failed_notification-claims_example =
    reschedule_failed_notification-claims at_noon at_noon-NamesAgree node_info claim_infos
      slice_infos spec cluster

-- The newest claim excludes the models of the resources and fails.
abbrev settled : List ResourceClaimInfo
settled = with_state failed claim_y ∷ claim_x ∷ claim_z ∷ []

returned :
    (reschedule_failed_notification at_noon node_info claim_infos slice_infos spec cluster).result
    ≡ ok settled
unfolding reschedule_failed_notification sort_by_time is_device_coexistence set_devices_state
    patch_resource_claim_device_conditions prepared_devices with_conditions with_condition
    get_unique_models_with_counts get_configured_device_count get_model_limit
    is_device_resource_slice_red get_preparing_reschedule_devices_count text_beq
returned = refl

reschedule_failed_notification-IsCompatible_example :
    (requests : List ComposabilityRequest) × (resources : List ComposableResource)
    × ((at_noon.list_requests cluster).0 ≡ done requests)
    × ((at_noon.list_resources (at_noon.list_requests cluster).1).0 ≡ done resources)
    × ((k : ℕ) (rc : ResourceClaimInfo)
        → get_elem? settled k ≡ some rc
        → all_preparing rc ≡ true
        → All
            (IsCompatible (scene node_info slice_infos spec requests resources) settled rc)
            rc.devices)
reschedule_failed_notification-IsCompatible_example =
    reschedule_failed_notification-IsCompatible at_noon at_noon-NamesAgree node_info claim_infos
      slice_infos spec cluster returned

reschedule_notification-Serves_example :
    All
      (Notifies resource_infos slice_infos (bytes "p") (sort_by_time at_noon ascending claim_infos))
      (reschedule_notification at_noon slice_infos (bytes "p") (pos 100) claim_infos cluster).writes
    × OnOk
        (λ out.
          (out ≡ claim_infos)
          ⊎ AllBecome reschedule (sort_by_time at_noon ascending claim_infos) out)
        (reschedule_notification at_noon slice_infos
          (bytes "p")
          (pos 100)
          claim_infos
          cluster).result
reschedule_notification-Serves_example =
    reschedule_notification-Serves at_noon at_noon-NamesAgree at_noon-RangesOver slice_infos
      (bytes "p") (pos 100) claim_infos cluster resource_infos refl

-- The oldest claim takes the free resource, and the next one of its model takes it again: two patches
-- of claims, the first of them tried twice, and two of the annotation.
five_writes :
    length
      (reschedule_notification at_noon slice_infos (bytes "p") (pos 100) claim_infos cluster).writes
    ≡ 5
unfolding reschedule_notification get_unique_models_with_counts text_beq
    is_device_resource_slice_red is_device_used_by_pod is_last_used_over_threshold set_devices_state
    patch_resource_claim_device_conditions prepared_devices with_conditions for_each
    patch_composable_resource_annotation
five_writes = refl
