-- ===== src/Collect/Sends.antt =====
-- The collection of the configuration, the claims and the slices sends nothing.
use dynamic_device_scaler.Base.{bytes}
use dynamic_device_scaler.Types.{ComposableDraSpec}
use dynamic_device_scaler.Kube.{Write}
use dynamic_device_scaler.Effects.{
  Environment, lift, wrap, request, ◌>>=◌, Ensures, Always, lifted-Ensures, read-Ensures,
  >>=-Ensures,
}
use dynamic_device_scaler.Collect.Config.{spec_of, get_config_map_info}
use dynamic_device_scaler.Collect.Claims.{resource_claim_infos, get_resource_claim_info}
use dynamic_device_scaler.Collect.Slices.{resource_slice_infos, get_resource_slice_info}

module _ (env : Environment) {P : Write → Type 0} where
  pub get_config_map_info-Ensures : Ensures P Always (get_config_map_info env)
  unfolding get_config_map_info
  get_config_map_info-Ensures =
      let get = env.get_config_map (bytes "composable-dra") (bytes "composable-dra-dds") in
      >>=-Ensures {Q = Always} (wrap "failed to get ConfigMap" (request get))
        (λ config. lift (spec_of env config)) (read-Ensures "failed to get ConfigMap" get)
        λ config _. lifted-Ensures (spec_of env config)

  pub get_resource_slice_info-Ensures : Ensures P Always (get_resource_slice_info env)
  unfolding get_resource_slice_info
  get_resource_slice_info-Ensures =
      >>=-Ensures {Q = Always} (wrap "failed to list ResourceSlices" (request env.list_slices))
        (λ slices. lift (resource_slice_infos slices))
        (read-Ensures "failed to list ResourceSlices" env.list_slices)
        λ slices _. lifted-Ensures (resource_slice_infos slices)

  pub get_resource_claim_info-Ensures :
      (spec : ComposableDraSpec) → Ensures P Always (get_resource_claim_info env spec)
  unfolding get_resource_claim_info
  get_resource_claim_info-Ensures spec =
      >>=-Ensures {Q = Always} (wrap "failed to list ResourceClaims" (request env.list_claims))
        (λ claims. wrap "failed to list ResourceSlices" (request env.list_slices) >>= λ slices.
          lift (resource_claim_infos spec slices claims))
        (read-Ensures "failed to list ResourceClaims" env.list_claims)
        λ claims _.
          >>=-Ensures {Q = Always} (wrap "failed to list ResourceSlices" (request env.list_slices))
            (λ slices. lift (resource_claim_infos spec slices claims))
            (read-Ensures "failed to list ResourceSlices" env.list_slices)
            λ slices _. lifted-Ensures (resource_claim_infos spec slices claims)
