-- ===== src/Controller/Served.antt =====
-- What a whole reconcile has done when it returns without an error.
pub mod Node
use dynamic_device_scaler.Base.{List, select, ◌==◌, text_eq, All}
use dynamic_device_scaler.Types.{NodeInfo, ResourceClaimInfo}
use dynamic_device_scaler.Kube.{ComposabilityRequest, ComposableResource}
use dynamic_device_scaler.Effects.{Environment, wrap-Runs, AllDone, Within, wrap-Within}
use dynamic_device_scaler.Reschedule.Failed.{reschedule_failed_notification}
use dynamic_device_scaler.Reschedule.Failed.Runs.{reschedule_failed_notification-Runs}
use dynamic_device_scaler.Reschedule.Notification.{reschedule_notification}
use dynamic_device_scaler.Reschedule.Notification.Runs.{reschedule_notification-Runs}
use dynamic_device_scaler.NodeLabel.{update_node_label}
use dynamic_device_scaler.NodeLabel.Runs.{update_node_label-Runs}
use dynamic_device_scaler.Controller.{
  Settings, Collected, collect_info, update_composable_resource_last_used_time, handle_devices,
}
use dynamic_device_scaler.Controller.Runs.{handle_devices-Runs}
use dynamic_device_scaler.Controller.Touched.{Untouched, TouchedBy}
use dynamic_device_scaler.Controller.Takes.{RestsAt, ScalesAt, handle_devices-AllDone}
use dynamic_device_scaler.Controller.Served.Node.{Served}

-- What a reconcile does between two states.
pub record Serves (env : Environment) (settings : Settings) (s u : env.State) : Type 0 where
  pub c : Collected
  pub collecting : Within env (collect_info env) c s u
  pub touching :
      Within env (update_composable_resource_last_used_time env c.slices c.spec.label_prefix) tt s u
  -- The resources that were listed for it.
  pub resources : List ComposableResource
  pub touched :
      let r =
        update_composable_resource_last_used_time env c.slices c.spec.label_prefix touching.at in
      AllDone env
        (Untouched env (env.list_resources touching.at).1 c.slices c.spec.label_prefix)
        (TouchedBy env (env.list_resources touching.at).1 c.slices c.spec.label_prefix)
        resources
        (env.list_resources touching.at).1
        r.writes
        r.state
  pub served : All (Served env settings c s u) c.nodes
