-- ===== src/Usage/Sends.antt =====
-- The counts send nothing.
use dynamic_device_scaler.Base.{
  ℕ, suc, Text, false, ◌&&◌, Option, some, none, List, [], ◌∷◌, ◌==◌, text_eq, if◌then◌else◌,
}
use dynamic_device_scaler.Types.{ResourceClaimInfo, ResourceSliceInfo}
use dynamic_device_scaler.Kube.{ComposableResource, Write, is_online}
use dynamic_device_scaler.Effects.{
  Environment, wrap, request, Ensures, Always, pure-Ensures, read-Ensures, >>=-Ensures, if-Ensures,
}
use dynamic_device_scaler.Usage.{
  is_device_resource_slice_red, is_device_used_by_pod, is_used_at, is_counted, count_resources,
  get_configured_device_count,
}

module _ (env : Environment) {P : Write → Type 0} where
  pub is_device_used_by_pod-Ensures :
      (device_name : Text) (slice : ResourceSliceInfo)
      → Ensures P Always (is_device_used_by_pod env device_name slice)
  unfolding is_device_used_by_pod
  is_device_used_by_pod-Ensures device_name slice =
      >>=-Ensures {Q = Always} (wrap _ (request env.list_claims)) _
        (read-Ensures "failed to list ResourceClaims" env.list_claims) λ claims _. pure-Ensures _ tt

  is_used_at-Ensures :
      (red : Option (ResourceSliceInfo × Text)) → Ensures P Always (is_used_at env red)
  is_used_at-Ensures none = pure-Ensures false tt
  is_used_at-Ensures (some (slice, device_name)) = is_device_used_by_pod-Ensures device_name slice

  is_counted-Ensures :
      (model node_name : Text) (slices : List ResourceSliceInfo) (r : ComposableResource)
      → Ensures P Always (is_counted env model node_name slices r)
  unfolding is_counted
  is_counted-Ensures model node_name slices r =
      if-Ensures (r.target_node == node_name && r.model == model && is_online r.state) _ _
        (is_used_at-Ensures (is_device_resource_slice_red r.device_id slices))
        (pure-Ensures false tt)

  count_resources-Ensures :
      (model node_name : Text) (slices : List ResourceSliceInfo) (count : ℕ)
      (rs : List ComposableResource)
      → Ensures P Always (count_resources env model node_name slices count rs)
  unfolding count_resources
  count_resources-Ensures model node_name slices count [] = pure-Ensures count tt
  count_resources-Ensures model node_name slices count (r ∷ rs) =
      >>=-Ensures {Q = Always} _ _ (is_counted-Ensures model node_name slices r) λ used _.
        count_resources-Ensures model node_name slices (if used then suc count else count) rs

  pub get_configured_device_count-Ensures :
      (model node_name : Text) (infos : List ResourceClaimInfo) (slices : List ResourceSliceInfo)
      → Ensures P Always (get_configured_device_count env model node_name infos slices)
  unfolding get_configured_device_count
  get_configured_device_count-Ensures model node_name infos slices =
      >>=-Ensures {Q = Always} _ _
        (>>=-Ensures {Q = Always} (wrap _ (request env.list_resources)) _
          (read-Ensures "failed to list composableResourceList" env.list_resources)
          λ rs _. count_resources-Ensures model node_name slices 0 rs)
        λ allocated _. pure-Ensures _ tt
