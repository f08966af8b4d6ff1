-- ===== src/Controller/Served/Node.antt =====
-- What a reconcile has done for a node when it returns without an error.
use dynamic_device_scaler.Base.{List, select, ◌==◌, text_eq, ◌≡◌}
use dynamic_device_scaler.Types.{NodeInfo, ResourceClaimInfo}
use dynamic_device_scaler.Kube.{ComposabilityRequest}
use dynamic_device_scaler.Effects.{
  ok, wrap, request, ◌>>=◌, Environment, Program, Runs, NamesAgree, Any, wrap-Runs, >>=-Runs,
  AllDone, Within, wrap-Within, >>=-Within, >>=-ok, read-ok,
}
use dynamic_device_scaler.Reschedule.Failed.{reschedule_failed_notification}
use dynamic_device_scaler.Reschedule.Failed.Runs.{reschedule_failed_notification-Runs}
use dynamic_device_scaler.Reschedule.Notification.{reschedule_notification}
use dynamic_device_scaler.Reschedule.Notification.Runs.{reschedule_notification-Runs}
use dynamic_device_scaler.NodeLabel.{update_node_label}
use dynamic_device_scaler.NodeLabel.Runs.{update_node_label-Runs}
use dynamic_device_scaler.Controller.{Settings, Collected, handle_devices, handle_node}
use dynamic_device_scaler.Controller.Runs.{handle_devices-Runs}
use dynamic_device_scaler.Controller.Takes.{RestsAt, ScalesAt, handle_devices-AllDone}

module _ (env : Environment) (settings : Settings) (c : Collected) where
  -- What is done for a node between two states.
  pub record Served (s u : env.State) (node : NodeInfo) : Type 0 where
    -- The claims of the node after the notifications.
    pub kept : List ResourceClaimInfo
    pub notified : List ResourceClaimInfo
    pub failing :
        Within env
          (reschedule_failed_notification env node
            (select (λ rc. rc.node_name == node.name) c.claims)
            c.slices
            c.spec)
          kept
          s
          u
    pub notifying :
        Within env
          (reschedule_notification env c.slices c.spec.label_prefix settings.device_no_allocation
            kept)
          notified
          s
          u
    pub scaling : Within env (handle_devices env settings node notified c.slices c.spec) tt s u
    -- The requests that handleDevices was answered.
    pub requests : List ComposabilityRequest
    pub scaled :
        let r = handle_devices env settings node notified c.slices c.spec scaling.at in
        AllDone env
          (RestsAt env
            (env.list_requests scaling.at).1
            settings
            c.spec
            node
            notified
            c.slices
            requests)
          (ScalesAt env
            (env.list_requests scaling.at).1
            settings
            c.spec
            node
            notified
            c.slices
            requests)
          c.spec.device_infos
          (env.list_requests scaling.at).1
          r.writes
          r.state
    pub labelling : Within env (update_node_label env node c.spec) tt s u

  module _ (named : NamesAgree env) where
    handle_devices-scaled :
        (node : NodeInfo) (claims : List ResourceClaimInfo) (t : env.State)
        → let r = handle_devices env settings node claims c.slices c.spec t in
          r.result ≡ ok tt
          → (requests : List ComposabilityRequest) × AllDone env
              (RestsAt env (env.list_requests t).1 settings c.spec node claims c.slices requests)
              (ScalesAt env (env.list_requests t).1 settings c.spec node claims c.slices requests)
              c.spec.device_infos
              (env.list_requests t).1
              r.writes
              r.state
    unfolding handle_devices
    handle_devices-scaled node claims t e =
        let list = wrap "failed to list ComposabilityRequestList" (request env.list_requests) in
        let (requests, p, _, _) = >>=-ok list _ t e in
        let (q, _) = read-ok "failed to list ComposabilityRequestList" env.list_requests t p in
        (
          requests,
          handle_devices-AllDone env named settings node claims c.slices c.spec t requests q e,
        )

    -- The steps of the round.
    abbrev failing_step : NodeInfo → Program env (List ResourceClaimInfo)
    failing_step node = wrap "failed to reschedule failed notification" (
        reschedule_failed_notification env node (select (λ rc. rc.node_name == node.name) c.claims)
          c.slices c.spec)

    abbrev notifying_step : List ResourceClaimInfo → Program env (List ResourceClaimInfo)
    notifying_step kept = wrap "failed to reschedule notification" (
        reschedule_notification env c.slices c.spec.label_prefix settings.device_no_allocation kept)

    abbrev scaling_step : NodeInfo → List ResourceClaimInfo → Program env (Unit {0})
    scaling_step node notified =
        wrap "failed to handle devices" (handle_devices env settings node notified c.slices c.spec)

    abbrev labelling_step : NodeInfo → Program env (Unit {0})
    labelling_step node = wrap "failed to update node label" (update_node_label env node c.spec)

    failing_step-Runs : (node : NodeInfo) → Runs env Any (failing_step node)
    failing_step-Runs node =
        wrap-Runs _ _ (reschedule_failed_notification-Runs env node _ c.slices c.spec)

    notifying_step-Runs : (kept : List ResourceClaimInfo) → Runs env Any (notifying_step kept)
    notifying_step-Runs kept = wrap-Runs _ _ (
        reschedule_notification-Runs env c.slices c.spec.label_prefix settings.device_no_allocation
          kept)

    scaling_step-Runs :
        (node : NodeInfo) (notified : List ResourceClaimInfo)
        → Runs env Any (scaling_step node notified)
    scaling_step-Runs node notified =
        wrap-Runs _ _ (handle_devices-Runs env settings node notified c.slices c.spec)

    labelling_step-Runs : (node : NodeInfo) → Runs env Any (labelling_step node)
    labelling_step-Runs node = wrap-Runs _ _ (update_node_label-Runs env node c.spec)

    from_scaling-Runs :
        (node : NodeInfo) (notified : List ResourceClaimInfo)
        → Runs env Any (scaling_step node notified >>= λ _. labelling_step node)
    from_scaling-Runs node notified =
        >>=-Runs {Q = Any} (scaling_step node notified) (λ _. labelling_step node)
          (scaling_step-Runs node notified) (λ _ _. labelling_step-Runs node)

    pub handle_node-Served :
        {s u : env.State} (node : NodeInfo)
        → Within env (handle_node env settings c.claims c.slices c.spec node) tt s u
        → Served s u node
    unfolding handle_node
    handle_node-Served node w =
        let (kept, failing, rest) =
          >>=-Within env (failing_step node) _ tt (failing_step-Runs node)
            (λ kept.
              >>=-Runs {Q = Any} (notifying_step kept) _ (notifying_step-Runs kept)
                (λ notified _. from_scaling-Runs node notified))
            w in
        let (notified, notifying, rest2) =
          >>=-Within env (notifying_step kept) _ tt (notifying_step-Runs kept)
            (from_scaling-Runs node) rest in
        let (_, scaling, labelling) =
          >>=-Within env (scaling_step node notified) (λ _. labelling_step node) tt
            (scaling_step-Runs node notified) (λ _. labelling_step-Runs node) rest2 in
        let scaled_now = wrap-Within env _ _ tt scaling in
        let (requests, scaled) =
          handle_devices-scaled node notified scaled_now.at scaled_now.returned in
        record {
          kept = kept;
          notified = notified;
          failing = wrap-Within env _ _ kept failing;
          notifying = wrap-Within env _ _ notified notifying;
          scaling = scaled_now;
          requests = requests;
          scaled = scaled;
          labelling = wrap-Within env _ _ tt labelling;
        }
