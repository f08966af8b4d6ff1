-- ===== src/Usage/Runs.antt =====
-- The counts as sequences of calls that never panic.
use dynamic_device_scaler.Base.{
  ℕ, suc, refl, Text, false, ◌&&◌, Option, some, none, List, [], ◌∷◌, ◌==◌, text_eq, if◌then◌else◌,
}
use dynamic_device_scaler.Types.{ResourceClaimInfo, ResourceSliceInfo}
use dynamic_device_scaler.Kube.{ComposableResource, is_online}
use dynamic_device_scaler.Effects.{
  Environment, wrap, request, Runs, Any, lists_claims, lists_resources, pure-Runs, read-Runs,
  >>=-Runs, if-Runs,
}
use dynamic_device_scaler.Usage.{
  is_device_resource_slice_red, is_device_used_by_pod, is_used_at, is_counted, count_resources,
  get_pod_allocated_devices_count, get_configured_device_count,
}

module _ (env : Environment) where
  pub is_device_used_by_pod-Runs :
      (device_name : Text) (slice : ResourceSliceInfo)
      → Runs env Any (is_device_used_by_pod env device_name slice)
  unfolding is_device_used_by_pod
  is_device_used_by_pod-Runs device_name slice =
      >>=-Runs {Q = Any} (wrap _ (request env.list_claims)) _
        (read-Runs env "failed to list ResourceClaims" env.list_claims (λ s. lists_claims refl))
        λ claims _. pure-Runs _ tt

  is_used_at-Runs : (red : Option (ResourceSliceInfo × Text)) → Runs env Any (is_used_at env red)
  is_used_at-Runs none = pure-Runs false tt
  is_used_at-Runs (some (slice, device_name)) = is_device_used_by_pod-Runs device_name slice

  is_counted-Runs :
      (model node_name : Text) (slices : List ResourceSliceInfo) (r : ComposableResource)
      → Runs env Any (is_counted env model node_name slices r)
  unfolding is_counted
  is_counted-Runs model node_name slices r =
      if-Runs (r.target_node == node_name && r.model == model && is_online r.state) _ _
        (is_used_at-Runs (is_device_resource_slice_red r.device_id slices)) (pure-Runs false tt)

  count_resources-Runs :
      (model node_name : Text) (slices : List ResourceSliceInfo) (count : ℕ)
      (rs : List ComposableResource)
      → Runs env Any (count_resources env model node_name slices count rs)
  unfolding count_resources
  count_resources-Runs model node_name slices count [] = pure-Runs count tt
  count_resources-Runs model node_name slices count (r ∷ rs) =
      >>=-Runs {Q = Any} _ _ (is_counted-Runs model node_name slices r)
        λ used _. count_resources-Runs model node_name slices (if used then suc count else count) rs

  get_pod_allocated_devices_count-Runs :
      (model node_name : Text) (slices : List ResourceSliceInfo)
      → Runs env Any (get_pod_allocated_devices_count env model node_name slices)
  unfolding get_pod_allocated_devices_count
  get_pod_allocated_devices_count-Runs model node_name slices =
      >>=-Runs {Q = Any} (wrap _ (request env.list_resources)) _
        (read-Runs env "failed to list composableResourceList" env.list_resources
          (λ s. lists_resources refl))
        λ rs _. count_resources-Runs model node_name slices 0 rs

  pub get_configured_device_count-Runs :
      (model node_name : Text) (infos : List ResourceClaimInfo) (slices : List ResourceSliceInfo)
      → Runs env Any (get_configured_device_count env model node_name infos slices)
  unfolding get_configured_device_count
  get_configured_device_count-Runs model node_name infos slices =
      >>=-Runs {Q = Any} _ _ (get_pod_allocated_devices_count-Runs model node_name slices)
        λ allocated _. pure-Runs _ tt
