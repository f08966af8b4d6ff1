-- ===== src/Controller.antt =====
-- internal/controller/resourcemonitor_controller.go: what one reconcile does with the information
-- that it has collected.
pub mod Sizes
pub mod Creation
pub mod Runs
pub mod Touches
pub mod Round
pub mod Writes
pub mod Takes
pub mod Touched
pub mod Served
use dynamic_device_scaler.Base.{
  ℕ, ℤ, pos, ltb_ℤ, Text, Bool, true, false, ◌&&◌, Option, none, some, List, [], ◌∷◌, select,
  find_first, ◌==◌, text_eq, if◌then◌else◌,
}
use dynamic_device_scaler.Types.{
  Duration, DeviceInfo, ComposableDraSpec, NodeInfo, ResourceClaimInfo, ResourceSliceInfo,
}
use dynamic_device_scaler.Kube.{ComposabilityRequest, ComposableResource, is_online}
use dynamic_device_scaler.Effects.{
  message, pure, fail, wrap, ◌>>=◌, ◌>>◌, for_each, Environment, Program, request, observe,
}
use dynamic_device_scaler.Collect.Config.{get_config_map_info}
use dynamic_device_scaler.Collect.Claims.{get_resource_claim_info}
use dynamic_device_scaler.Collect.Slices.{get_resource_slice_info}
use dynamic_device_scaler.Collect.Nodes.{get_node_info}
use dynamic_device_scaler.Models.{get_model_limit, get_driver_type}
use dynamic_device_scaler.LastUsed.{last_used_label}
use dynamic_device_scaler.Patch.{patch_composable_resource_annotation}
use dynamic_device_scaler.Usage.{
  is_device_resource_slice_red, is_device_used_by_pod, get_configured_device_count,
}
use dynamic_device_scaler.Scaling.{dynamic_attach, dynamic_detach}
use dynamic_device_scaler.Reschedule.Failed.{reschedule_failed_notification}
use dynamic_device_scaler.Reschedule.Notification.{reschedule_notification}
use dynamic_device_scaler.NodeLabel.{update_node_label}

-- The settings of a ResourceMonitorReconciler.
pub record Settings : Type 0 where
  pub scan_interval : Duration
  pub device_no_removal : Duration
  pub device_no_allocation : Duration

-- A request for the model on the node.
abbrev pub is_request_for : Text → Text → ComposabilityRequest → Bool
is_request_for model node_name cr =
    cr.resource.model == model && cr.resource.target_node == node_name

-- The count raised to the minimum of the node.
abbrev pub at_least : ℤ → ℤ → ℤ
at_least low count = if ltb_ℤ count low then low else count

module _ (env : Environment) where
  -- The attach or the detach of the first request for the model; without one, a new request.
  pub scale_request :
      Settings
      → ComposableDraSpec
      → NodeInfo
      → DeviceInfo
      → ℤ
      → Option ComposabilityRequest
      → Program env (Unit {0})
  scale_request settings spec node device count (some cr) =
      if ltb_ℤ cr.resource.size count
      then wrap "failed to attach devices"
          (dynamic_attach env (some cr) count cr.resource.type device.cdi_model_name node.name)
      else if ltb_ℤ count cr.resource.size
      then wrap "failed to detach devices"
          (dynamic_detach env cr count node.name spec.label_prefix settings.device_no_removal)
      else pure tt
  scale_request settings spec node device count none =
      if ltb_ℤ (pos 0) count
      then wrap "failed to attach devices" (
          dynamic_attach env none count (get_driver_type device.driver_name) device.cdi_model_name
            node.name)
      else pure tt

  -- The body of the loop over the device infos.
  pub handle_device :
      Settings
      → ComposableDraSpec
      → NodeInfo
      → List ResourceClaimInfo
      → List ResourceSliceInfo
      → List ComposabilityRequest
      → DeviceInfo
      → Program env (Unit {0})
  unfolding scale_request
  handle_device settings spec node claims slices requests device = do
    count ←
        wrap "failed to get configured device count"
          (get_configured_device_count env device.cdi_model_name node.name claims slices)
    let limits = get_model_limit node device.cdi_model_name
    if ltb_ℤ limits.0 (pos count)
        then fail (message "configured device count exceeds max limit")
        else scale_request settings spec node device (at_least limits.1 (pos count))
            (find_first (is_request_for device.cdi_model_name node.name) requests)

  unfoldable pub handle_devices :
      Settings
      → NodeInfo
      → List ResourceClaimInfo
      → List ResourceSliceInfo
      → ComposableDraSpec
      → Program env (Unit {0})
  unfolding handle_device
  handle_devices settings node claims slices spec = do
    requests ← wrap "failed to list ComposabilityRequestList" (request env.list_requests)
    for_each spec.device_infos (handle_device settings spec node claims slices requests)

  -- The body of the loop over the nodes.
  pub handle_node :
      Settings
      → List ResourceClaimInfo
      → List ResourceSliceInfo
      → ComposableDraSpec
      → NodeInfo
      → Program env (Unit {0})
  handle_node settings claims slices spec node = do
    let own = select (λ rc. rc.node_name == node.name) claims
    kept ←
        wrap "failed to reschedule failed notification"
          (reschedule_failed_notification env node own slices spec)
    notified ←
        wrap "failed to reschedule notification"
          (reschedule_notification env slices spec.label_prefix settings.device_no_allocation kept)
    wrap "failed to handle devices" (handle_devices settings node notified slices spec)
    wrap "failed to update node label" (update_node_label env node spec)

  unfoldable pub handle_nodes :
      Settings
      → List NodeInfo
      → List ResourceClaimInfo
      → List ResourceSliceInfo
      → ComposableDraSpec
      → Program env (Unit {0})
  unfolding handle_node
  handle_nodes settings nodes claims slices spec =
      for_each nodes (handle_node settings claims slices spec)

  pub touch_if_used :
      Text → ComposableResource → Option (ResourceSliceInfo × Text) → Program env (Unit {0})
  touch_if_used label_prefix r none = pure tt
  touch_if_used label_prefix r (some (slice, device_name)) = do
    used ←
        wrap "failed to check if device is used by pod"
          (is_device_used_by_pod env device_name slice)
    if used
        then (observe env.now >>= λ now. wrap "failed to update ComposableResource" (
            patch_composable_resource_annotation env r.name (last_used_label label_prefix)
              (env.format_rfc3339 now)))
        else pure tt

  -- The body of the loop over the resources.
  pub touch_resource : Text → List ResourceSliceInfo → ComposableResource → Program env (Unit {0})
  unfolding touch_if_used
  touch_resource label_prefix slices r =
      if is_online r.state
      then touch_if_used label_prefix r (is_device_resource_slice_red r.device_id slices)
      else pure tt

  unfoldable pub update_composable_resource_last_used_time :
      List ResourceSliceInfo → Text → Program env (Unit {0})
  unfolding touch_resource
  update_composable_resource_last_used_time slices label_prefix = do
    resources ← wrap "failed to list ComposableResourceList" (request env.list_resources)
    for_each resources (touch_resource label_prefix slices)

-- What collectInfo returns.
pub record Collected : Type 0 where
  pub claims : List ResourceClaimInfo
  pub slices : List ResourceSliceInfo
  pub nodes : List NodeInfo
  pub spec : ComposableDraSpec

module _ (env : Environment) where
  unfoldable pub collect_info : Program env Collected
  collect_info = do
    spec ← wrap "failed to get ComposableDRASpec from ConfigMap" (get_config_map_info env)
    claims ← wrap "failed to get ResourceClaimInfo" (get_resource_claim_info env spec)
    slices ← wrap "failed to get ResourceSliceInfo" (get_resource_slice_info env)
    nodes ← wrap "failed to get NodeInfo" (get_node_info env spec)
    pure (record { claims = claims; slices = slices; nodes = nodes; spec = spec })

  -- `Reconcile`, which returns `RequeueAfter`.
  unfoldable pub reconcile : Settings → Program env Duration
  unfolding collect_info
  reconcile settings = do
    c ← collect_info
    update_composable_resource_last_used_time env c.slices c.spec.label_prefix
    handle_nodes env settings c.nodes c.claims c.slices c.spec
    pure settings.scan_interval
