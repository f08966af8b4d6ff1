-- ===== src/Controller/Round.antt =====
-- What the round for one node sends.
use dynamic_device_scaler.Base.{none, List, refl, select, ◌==◌, text_eq}
use dynamic_device_scaler.Types.{
  failed, ComposableDraSpec, NodeInfo, ResourceClaimInfo, ResourceSliceInfo,
}
use dynamic_device_scaler.Kube.{ComposabilityRequest, ComposableResource, Write, patch_node_labels}
use dynamic_device_scaler.Effects.{
  Environment, NamesAgree, RangesOver, wrap, request, Ensures, Always, Ensures-weaken, wrap-Ensures,
  read-Ensures, >>=-Ensures,
}
use dynamic_device_scaler.Patch.{max_retries, patch_node_label}
use dynamic_device_scaler.Patch.Requests.{submit_round, submit_round-Ensures}
use dynamic_device_scaler.Patch.Retry.{retry-Ensures}
use dynamic_device_scaler.Reschedule.{ascending, descending, sort_by_time}
use dynamic_device_scaler.Reschedule.States.{AllBecome}
use dynamic_device_scaler.Reschedule.Failed.Outcome.{FailsClaim}
use dynamic_device_scaler.Reschedule.Failed.Safety.{notification-Ensures}
use dynamic_device_scaler.Reschedule.Notification.{reschedule_notification}
use dynamic_device_scaler.Reschedule.Notification.Served.{Notifies}
use dynamic_device_scaler.Reschedule.Notification.Outcome.{notify_sorted-Ensures}
use dynamic_device_scaler.NodeLabel.{installed_devices, not_coexist_ids, update_node_label}
use dynamic_device_scaler.NodeLabel.Labels.{SetsLabels, patch_of, lookup-patch_of}
use dynamic_device_scaler.Controller.{Settings, handle_devices, handle_node}
use dynamic_device_scaler.Controller.Sizes.{IsScaling, handle_all-Ensures}

-- A write in the round for one node, which has these claims.
pub data NodeWrite (env : Environment) (node : NodeInfo) (spec : ComposableDraSpec)
    (slices : List ResourceSliceInfo) (own : List ResourceClaimInfo) (w : Write) : Type 0 where
  fails : FailsClaim (sort_by_time env descending own) w → NodeWrite env node spec slices own w
  notifies :
      (kept : List ResourceClaimInfo) (resources : List ComposableResource)
      → AllBecome failed (sort_by_time env descending own) kept
      → Notifies resources slices spec.label_prefix (sort_by_time env ascending kept) w
      → NodeWrite env node spec slices own w
  scales :
      (requests : List ComposabilityRequest)
      → IsScaling node spec requests w
      → NodeWrite env node spec slices own w
  labels :
      (requests : List ComposabilityRequest) (resources : List ComposableResource)
      → SetsLabels requests resources node spec w
      → NodeWrite env node spec slices own w

-- The claims of a node.
abbrev pub own_claims : NodeInfo → List ResourceClaimInfo → List ResourceClaimInfo
own_claims node claims = select (λ rc. rc.node_name == node.name) claims

module _ (env : Environment) (named : NamesAgree env) (ranges : RangesOver env)
    (settings : Settings) (slices : List ResourceSliceInfo) (spec : ComposableDraSpec)
    (node : NodeInfo) where
  pub reschedule_notification-Ensures :
      (kept : List ResourceClaimInfo)
      → Ensures
          (λ w.
            (resources : List ComposableResource) × Notifies resources slices spec.label_prefix
              (sort_by_time env ascending kept)
              w)
          Always
          (reschedule_notification env slices spec.label_prefix settings.device_no_allocation kept)
  unfolding reschedule_notification
  reschedule_notification-Ensures kept =
      >>=-Ensures {Q = Always} (wrap _ (request env.list_resources)) _
        (read-Ensures _ env.list_resources)
        λ resources _.
          Ensures-weaken (λ w h. (resources, h)) (λ _ _. tt)
            (notify_sorted-Ensures env named ranges slices spec.label_prefix
              settings.device_no_allocation kept resources)

  handle_devices-Ensures :
      (claims : List ResourceClaimInfo)
      → Ensures
          (λ w. (requests : List ComposabilityRequest) × IsScaling node spec requests w)
          Always
          (handle_devices env settings node claims slices spec)
  unfolding handle_devices
  handle_devices-Ensures claims =
      >>=-Ensures {Q = Always} (wrap _ (request env.list_requests)) _
        (read-Ensures _ env.list_requests)
        λ requests _.
          Ensures-weaken (λ w h. (requests, h)) (λ _ _. tt)
            (handle_all-Ensures env named settings spec node requests claims slices)

  pub update_node_label-Ensures :
      Ensures
        (λ w.
          (requests : List ComposabilityRequest) × (resources : List ComposableResource)
          × SetsLabels requests resources node spec w)
        Always
        (update_node_label env node spec)
  unfolding update_node_label patch_node_label
  update_node_label-Ensures =
      >>=-Ensures {Q = Always} (wrap _ (request env.list_requests)) _
        (read-Ensures _ env.list_requests)
        λ requests _.
          >>=-Ensures {Q = Always} (wrap _ (request env.list_resources)) _
            (read-Ensures _ env.list_resources)
            λ resources _.
              let ids =
                not_coexist_ids (installed_devices node.name requests resources) node spec in
              let labels = patch_of requests resources node spec ids in
              let w = patch_node_labels node.name labels in
              let good : SetsLabels requests resources node spec w = record {
                labels = labels;
                written = refl;
                values = lookup-patch_of requests resources node spec;
              } in
              retry-Ensures max_retries none (submit_round env "patch failed" w)
                (submit_round-Ensures env "patch failed" w (requests, resources, good))

  pub handle_node-Ensures :
      (claims : List ResourceClaimInfo)
      → Ensures
          (NodeWrite env node spec slices (own_claims node claims))
          Always
          (handle_node env settings claims slices spec node)
  unfolding handle_node
  handle_node-Ensures claims =
      >>=-Ensures _ _
        (wrap-Ensures _ _ (
          Ensures-weaken (λ w h. fails h) (λ kept h. h)
            (notification-Ensures env named node (own_claims node claims) slices spec)))
        λ kept k.
          >>=-Ensures {Q = Always} _ _
            (wrap-Ensures _ _ (
              Ensures-weaken (λ w (rs, h). notifies kept rs k h) (λ _ _. tt)
                (reschedule_notification-Ensures kept)))
            λ notified _.
              >>=-Ensures {Q = Always} _ _
                (wrap-Ensures _ _ (
                  Ensures-weaken (λ w (rs, h). scales rs h) (λ _ _. tt)
                    (handle_devices-Ensures notified)))
                λ _ _. wrap-Ensures _ _ (
                  Ensures-weaken (λ w (qs, rs, h). labels qs rs h) (λ _ _. tt)
                    update_node_label-Ensures)
