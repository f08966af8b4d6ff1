-- ===== src/Controller/Runs.antt =====
-- A reconcile as a sequence of calls that never panics.
use dynamic_device_scaler.Base.{
  refl, ℤ, pos, ltb_ℤ, ◌≡◌, Text, Option, none, some, List, All, find_first, select, ◌==◌, text_eq,
}
use dynamic_device_scaler.Types.{
  DeviceInfo, ComposableDraSpec, NodeInfo, ResourceClaimInfo, ResourceSliceInfo,
}
use dynamic_device_scaler.Kube.{
  ResourceClaim, ResourceSlice, ComposabilityRequest, ComposableResource, is_online,
}
use dynamic_device_scaler.Effects.{
  message, done, wrap, request, observe, Environment, Runs, Any, lists_requests, lists_resources,
  pure-Runs, fail-Runs, read-Runs, now-Runs, wrap-Runs, for_each-Runs, >>=-Runs, if-Runs,
}
use dynamic_device_scaler.Models.{get_model_limit, get_driver_type}
use dynamic_device_scaler.LastUsed.{last_used_label}
use dynamic_device_scaler.Collect.Config.Runs.{get_config_map_info-Runs}
use dynamic_device_scaler.Collect.Claims.Runs.{IsReadableClaim, get_resource_claim_info-Runs}
use dynamic_device_scaler.Collect.Slices.Runs.{IsReadableSlice, get_resource_slice_info-Runs}
use dynamic_device_scaler.Collect.Nodes.Runs.{get_node_info-Runs}
use dynamic_device_scaler.Patch.Runs.{patch_composable_resource_annotation-Runs}
use dynamic_device_scaler.Usage.{is_device_resource_slice_red}
use dynamic_device_scaler.Usage.Runs.{is_device_used_by_pod-Runs, get_configured_device_count-Runs}
use dynamic_device_scaler.Scaling.Runs.{dynamic_attach-Runs, dynamic_detach-Runs}
use dynamic_device_scaler.Reschedule.Failed.Runs.{reschedule_failed_notification-Runs}
use dynamic_device_scaler.Reschedule.Notification.Runs.{reschedule_notification-Runs}
use dynamic_device_scaler.NodeLabel.Runs.{update_node_label-Runs}
use dynamic_device_scaler.Controller.{
  Settings, is_request_for, at_least, scale_request, handle_device, handle_devices, handle_node,
  touch_if_used, touch_resource, update_composable_resource_last_used_time, collect_info,
}

module _ (env : Environment) where
  pub scale_request-Runs :
      (settings : Settings) (spec : ComposableDraSpec) (node : NodeInfo) (device : DeviceInfo)
      (count : ℤ) (o : Option ComposabilityRequest)
      → Runs env Any (scale_request env settings spec node device count o)
  unfolding scale_request
  scale_request-Runs settings spec node device count (some cr) =
      if-Runs (ltb_ℤ cr.resource.size count) _ _
        (wrap-Runs _ _ (
          dynamic_attach-Runs env (some cr) count cr.resource.type device.cdi_model_name node.name))
        (if-Runs (ltb_ℤ count cr.resource.size) _ _
          (wrap-Runs _ _ (
            dynamic_detach-Runs env cr count node.name spec.label_prefix
              settings.device_no_removal))
          (pure-Runs tt tt))
  scale_request-Runs settings spec node device count none =
      if-Runs (ltb_ℤ (pos 0) count) _ _
        (wrap-Runs _ _ (
          dynamic_attach-Runs env none count (get_driver_type device.driver_name)
            device.cdi_model_name node.name))
        (pure-Runs tt tt)

  pub handle_device-Runs :
      (settings : Settings) (spec : ComposableDraSpec) (node : NodeInfo)
      (claims : List ResourceClaimInfo) (slices : List ResourceSliceInfo)
      (requests : List ComposabilityRequest) (device : DeviceInfo)
      → Runs env Any (handle_device env settings spec node claims slices requests device)
  unfolding handle_device
  handle_device-Runs settings spec node claims slices requests device =
      >>=-Runs {Q = Any} _ _
        (wrap-Runs _ _
          (get_configured_device_count-Runs env device.cdi_model_name node.name claims slices))
        λ count _.
          let limits = get_model_limit node device.cdi_model_name in
          if-Runs (ltb_ℤ limits.0 (pos count)) _ _
            (fail-Runs (message "configured device count exceeds max limit"))
            (scale_request-Runs settings spec node device (at_least limits.1 (pos count))
              (find_first (is_request_for device.cdi_model_name node.name) requests))

  pub handle_devices-Runs :
      (settings : Settings) (node : NodeInfo) (claims : List ResourceClaimInfo)
      (slices : List ResourceSliceInfo) (spec : ComposableDraSpec)
      → Runs env Any (handle_devices env settings node claims slices spec)
  unfolding handle_devices
  handle_devices-Runs settings node claims slices spec =
      >>=-Runs {Q = Any} (wrap _ (request env.list_requests)) _
        (read-Runs env "failed to list ComposabilityRequestList" env.list_requests
          (λ s. lists_requests refl))
        λ requests _.
          for_each-Runs spec.device_infos _
            λ device. handle_device-Runs settings spec node claims slices requests device

  pub handle_node-Runs :
      (settings : Settings) (claims : List ResourceClaimInfo) (slices : List ResourceSliceInfo)
      (spec : ComposableDraSpec) (node : NodeInfo)
      → Runs env Any (handle_node env settings claims slices spec node)
  unfolding handle_node
  handle_node-Runs settings claims slices spec node =
      let own = select (λ rc. rc.node_name == node.name) claims in
      >>=-Runs {Q = Any} _ _
        (wrap-Runs _ _ (reschedule_failed_notification-Runs env node own slices spec))
        λ kept _.
          >>=-Runs {Q = Any} _ _
            (wrap-Runs _ _ (
              reschedule_notification-Runs env slices spec.label_prefix
                settings.device_no_allocation kept))
            λ notified _.
              >>=-Runs {Q = Any} _ _
                (wrap-Runs _ _ (handle_devices-Runs settings node notified slices spec))
                λ _ _. wrap-Runs _ _ (update_node_label-Runs env node spec)

  pub touch_if_used-Runs :
      (label_prefix : Text) (r : ComposableResource) (o : Option (ResourceSliceInfo × Text))
      → Runs env Any (touch_if_used env label_prefix r o)
  unfolding touch_if_used
  touch_if_used-Runs label_prefix r none = pure-Runs tt tt
  touch_if_used-Runs label_prefix r (some (slice, device_name)) =
      >>=-Runs {Q = Any} _ _ (wrap-Runs _ _ (is_device_used_by_pod-Runs env device_name slice))
        λ used _.
          if-Runs used _ _
            (>>=-Runs {Q = Any} (observe env.now) _ (now-Runs env) λ now _.
              wrap-Runs "failed to update ComposableResource" _ (
                patch_composable_resource_annotation-Runs env r.name (last_used_label label_prefix)
                  (env.format_rfc3339 now)))
            (pure-Runs tt tt)

  pub touch_resource-Runs :
      (label_prefix : Text) (slices : List ResourceSliceInfo) (r : ComposableResource)
      → Runs env Any (touch_resource env label_prefix slices r)
  unfolding touch_resource
  touch_resource-Runs label_prefix slices r =
      if-Runs (is_online r.state) _ _
        (touch_if_used-Runs label_prefix r (is_device_resource_slice_red r.device_id slices))
        (pure-Runs tt tt)

  pub update_composable_resource_last_used_time-Runs :
      (slices : List ResourceSliceInfo) (label_prefix : Text)
      → Runs env Any (update_composable_resource_last_used_time env slices label_prefix)
  unfolding update_composable_resource_last_used_time
  update_composable_resource_last_used_time-Runs slices label_prefix =
      >>=-Runs {Q = Any} (wrap _ (request env.list_resources)) _
        (read-Runs env "failed to list ComposableResourceList" env.list_resources
          (λ s. lists_resources refl))
        λ rs _. for_each-Runs rs _ λ r. touch_resource-Runs label_prefix slices r

-- What the API server has checked of the objects that it lists: a selector In has values, and the
-- UUID of a device is a string.
pub record ListsReadable (env : Environment) : Type 0 where
  pub readable_claims :
      (s : env.State) (claims : List ResourceClaim)
      → (env.list_claims s).0 ≡ done claims
      → All IsReadableClaim claims
  pub readable_slices :
      (s : env.State) (slices : List ResourceSlice)
      → (env.list_slices s).0 ≡ done slices
      → All IsReadableSlice slices

module _ (env : Environment) (readable : ListsReadable env) where
  pub collect_info-Runs : Runs env Any (collect_info env)
  unfolding collect_info
  collect_info-Runs =
      >>=-Runs {Q = Any} _ _ (wrap-Runs _ _ (get_config_map_info-Runs env)) λ spec _.
        >>=-Runs {Q = Any} _ _
          (wrap-Runs _ _ (get_resource_claim_info-Runs env spec readable.readable_claims))
          λ claims _.
            >>=-Runs {Q = Any} _ _
              (wrap-Runs _ _ (get_resource_slice_info-Runs env readable.readable_slices))
              λ slices _.
                >>=-Runs {Q = Any} _ _ (wrap-Runs _ _ (get_node_info-Runs env spec))
                  λ nodes _. pure-Runs _ tt
