-- ===== src/NodeLabel/Runs.antt =====
-- UpdateNodeLabel as a sequence of calls that never panics.
use dynamic_device_scaler.Base.{refl}
use dynamic_device_scaler.Types.{ComposableDraSpec, NodeInfo}
use dynamic_device_scaler.Effects.{
  Environment, wrap, request, Runs, Any, lists_requests, lists_resources, read-Runs, >>=-Runs,
}
use dynamic_device_scaler.Patch.Runs.{patch_node_label-Runs}
use dynamic_device_scaler.NodeLabel.{update_node_label}

pub update_node_label-Runs :
    (env : Environment) (node : NodeInfo) (spec : ComposableDraSpec)
    → Runs env Any (update_node_label env node spec)
unfolding update_node_label
update_node_label-Runs env node spec =
    >>=-Runs {Q = Any} (wrap _ (request env.list_requests)) _
      (read-Runs env "failed to list composabilityRequestList" env.list_requests
        (λ s. lists_requests refl))
      λ requests _.
        >>=-Runs {Q = Any} (wrap _ (request env.list_resources)) _
          (read-Runs env "failed to list ComposableResourceList" env.list_resources
            (λ s. lists_resources refl))
          λ resources _. patch_node_label-Runs env node.name _ _
