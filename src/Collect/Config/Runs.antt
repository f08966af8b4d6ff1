-- ===== src/Collect/Config/Runs.antt =====
-- GetConfigMapInfo as a call and checks that never panic.
use dynamic_device_scaler.Base.{
  refl, pos, ltb, ltb_ℤ, String, ◌||◌, Option, none, some, List, [], ◌∷◌, length, bytes,
}
use dynamic_device_scaler.Types.{DeviceInfo}
use dynamic_device_scaler.Kube.{ConfigMap}
use dynamic_device_scaler.Effects.{
  Result, ok, err, panic, message, wrap_result, lift, wrap, request, Environment, Runs, Any,
  Returns, gets_config_map, lift-Runs, read-Runs, >>=-Runs,
}
use dynamic_device_scaler.Effects.Results.{>>=-Returns, if-Returns}
use dynamic_device_scaler.Collect.Names.{validate_dns_label, is_valid_label_name_prefix}
use dynamic_device_scaler.Collect.Names.Returns.{validate_dns_label-Returns}
use dynamic_device_scaler.Collect.Config.{
  check_device_info, validate_device_info, data_of, decoded, spec_of, get_config_map_info,
}

wrapped-Returns :
    {A : Type 0} (t : String) (r : Result A) → Returns Any r → Returns Any (wrap_result t r)
wrapped-Returns t (ok a) h = tt
wrapped-Returns t (err e) h = tt
wrapped-Returns t (panic m) h = h

module _ (env : Environment) where
  decoded-Returns : {A : Type 0} (t : String) (o : Option A) → Returns Any (decoded env t o)
  decoded-Returns t none = tt
  decoded-Returns t (some a) = tt

  check_device_info-Returns : (info : DeviceInfo) → Returns Any (check_device_info env info)
  unfolding check_device_info
  check_device_info-Returns info =
      if-Returns Any (ltb_ℤ info.index (pos 0) || ltb_ℤ (pos 10000) info.index) _ _ tt (
        if-Returns Any (ltb 1024 (length info.cdi_model_name)) _ _ tt (
          if-Returns Any (ltb 1024 (length info.driver_name)) _ _ tt (
            >>=-Returns Any Any
              (wrap_result "k8s-device-name invalid"
                (validate_dns_label env info.k8s_device_name 50))
              _ (wrapped-Returns _ _ (validate_dns_label-Returns env info.k8s_device_name 50))
              λ _ _. if-Returns Any (ltb 100 (length info.cannot_coexist_with)) _ _ tt tt)))

  validate_device_info-Returns :
      (infos : List DeviceInfo) → Returns Any (validate_device_info env infos)
  unfolding validate_device_info
  validate_device_info-Returns [] = tt
  validate_device_info-Returns (info ∷ infos) =
      >>=-Returns Any Any (check_device_info env info) _ (check_device_info-Returns info)
        λ _ _. validate_device_info-Returns infos

  spec_of-Returns : (config : ConfigMap) → Returns Any (spec_of env config)
  unfolding spec_of
  spec_of-Returns config =
      let prefix = data_of env (bytes "label-prefix") config in
      >>=-Returns Any Any _ _
        (decoded-Returns "failed to parse device-info"
          (env.decode_device_infos (data_of env (bytes "device-info") config)))
        λ infos _.
          >>=-Returns Any Any _ _
            (wrapped-Returns "invalid device-info" _ (validate_device_info-Returns infos))
            λ _ _.
              >>=-Returns Any Any _ _
                (if-Returns Any (is_valid_label_name_prefix env prefix) (ok tt)
                  (err (message "invalid label prefix")) tt tt)
                λ _ _.
                  >>=-Returns Any Any _ _
                    (decoded-Returns "failed to parse fabric-id-range"
                      (env.decode_ids (data_of env (bytes "fabric-id-range") config)))
                    λ ids _. if-Returns Any (ltb 100 (length ids)) _ _ tt tt

  pub get_config_map_info-Runs : Runs env Any (get_config_map_info env)
  unfolding get_config_map_info
  get_config_map_info-Runs =
      let get = env.get_config_map (bytes "composable-dra") (bytes "composable-dra-dds") in
      >>=-Runs {Q = Any} (wrap "failed to get ConfigMap" (request get))
        (λ config. lift (spec_of env config))
        (read-Runs env "failed to get ConfigMap" get
          (λ s. gets_config_map (bytes "composable-dra") (bytes "composable-dra-dds") refl))
        λ config _. lift-Runs (spec_of env config) (spec_of-Returns config)
