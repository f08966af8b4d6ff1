-- ===== src/Tests/Taking.antt =====
-- Devices that are scaled and resources that are touched, at a server that takes every write.
use dynamic_device_scaler.Base.{◌≡◌, refl, [], ◌∷◌, text_beq}
use dynamic_device_scaler.Effects.{ok, AllDone, for_each}
use dynamic_device_scaler.Models.{get_model_limit}
use dynamic_device_scaler.Patch.{
  patch_composability_request_size, patch_composable_resource_annotation,
}
use dynamic_device_scaler.Usage.{
  get_configured_device_count, get_preparing_reschedule_devices_count, is_device_used_by_pod,
  is_device_resource_slice_red,
}
use dynamic_device_scaler.Scaling.{dynamic_attach}
use dynamic_device_scaler.Controller.{handle_devices, update_composable_resource_last_used_time}
use dynamic_device_scaler.Controller.Takes.{RestsAt, ScalesAt, handle_devices-AllDone}
use dynamic_device_scaler.Controller.Touched.{
  Untouched, TouchedBy, update_composable_resource_last_used_time-AllDone,
}
use dynamic_device_scaler.Tests.Samples.{
  cluster, settings, spec, node_info, claim_infos, slice_infos, request_a, resource_infos,
}
use dynamic_device_scaler.Tests.Growing.{growing, growing-NamesAgree}

-- The first model grows from two to three, and a request for the second is created.
handled :
    (handle_devices growing settings node_info claim_infos slice_infos spec cluster).result ≡ ok tt
unfolding handle_devices get_configured_device_count get_model_limit dynamic_attach
    patch_composability_request_size is_device_resource_slice_red text_beq for_each
    get_preparing_reschedule_devices_count
handled = refl

handle_devices-AllDone_example :
    let r = handle_devices growing settings node_info claim_infos slice_infos spec cluster in
    AllDone growing
      (RestsAt growing cluster settings spec node_info claim_infos slice_infos (request_a ∷ []))
      (ScalesAt growing cluster settings spec node_info claim_infos slice_infos (request_a ∷ []))
      spec.device_infos
      cluster
      r.writes
      r.state
handle_devices-AllDone_example =
    handle_devices-AllDone growing growing-NamesAgree settings node_info claim_infos slice_infos
      spec cluster (request_a ∷ []) refl handled

touched :
    (update_composable_resource_last_used_time growing slice_infos spec.label_prefix cluster).result
    ≡ ok tt
unfolding update_composable_resource_last_used_time patch_composable_resource_annotation
    is_device_resource_slice_red text_beq for_each is_device_used_by_pod
touched = refl

update_composable_resource_last_used_time-AllDone_example :
    let r =
      update_composable_resource_last_used_time growing slice_infos spec.label_prefix cluster in
    AllDone growing
      (Untouched growing cluster slice_infos spec.label_prefix)
      (TouchedBy growing cluster slice_infos spec.label_prefix)
      resource_infos
      cluster
      r.writes
      r.state
update_composable_resource_last_used_time-AllDone_example =
    update_composable_resource_last_used_time-AllDone growing slice_infos spec.label_prefix cluster
      resource_infos refl touched
