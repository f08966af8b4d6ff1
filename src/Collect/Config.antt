-- ===== src/Collect/Config.antt =====
-- GetConfigMapInfo of internal/utils/info_utils.go: the ConfigMap and its checks.
pub mod Accepted
pub mod Runs
use dynamic_device_scaler.Base.{
  ltb, pos, ltb_ℤ, Text, String, ◌||◌, Option, none, some, List, [], ◌∷◌, length, lookup, text_eq,
  bytes, if◌then◌else◌,
}
use dynamic_device_scaler.Types.{DeviceInfo, ComposableDraSpec}
use dynamic_device_scaler.Kube.{ConfigMap}
use dynamic_device_scaler.Effects.{
  Error, message, wrapped, Result, ok, err, panic, wrap_result, lift, wrap, Environment, Program,
  request,
}
use dynamic_device_scaler.Effects
use dynamic_device_scaler.Effects.Results.{◌>>=◌}
use dynamic_device_scaler.Collect.Names.{validate_dns_label, is_valid_label_name_prefix}

module _ (env : Environment) where
  -- The checks of one device info.
  pub check_device_info : DeviceInfo → Result (Unit {0})
  check_device_info info =
      if ltb_ℤ info.index (pos 0) || ltb_ℤ (pos 10000) info.index
      then err (message "index must be between 0 and 10000")
      else if ltb 1024 (length info.cdi_model_name)
      then err (message "cdi-model-name exceeds 1KB limit")
      else if ltb 1024 (length info.driver_name)
      then err (message "driver-name exceeds 1KB limit")
      else (wrap_result "k8s-device-name invalid" (validate_dns_label env info.k8s_device_name 50)
          >>= λ _.
              if ltb 100 (length info.cannot_coexist_with)
              then err (message "cannot-coexist-with exceeds 100 item limit")
              else ok tt)

  unfoldable pub validate_device_info : List DeviceInfo → Result (Unit {0})
  unfolding check_device_info
  validate_device_info [] = ok tt
  validate_device_info (info ∷ infos) = check_device_info info >>= λ _. validate_device_info infos

  -- `configMap.Data[key]`, which is "" for a key that is not there.
  abbrev data_of : Text → ConfigMap → Text
  data_of key config = elim (lookup key config.entries) [ none ↦ [] | some text ↦ text ]

  abbrev decoded : {A : Type 0} → String → Option A → Result A
  decoded text none = err (wrapped text (message "yaml.Unmarshal"))
  decoded text (some a) = ok a

  unfoldable pub spec_of : ConfigMap → Result ComposableDraSpec
  unfolding validate_device_info
  spec_of config = do
    infos ←
        decoded "failed to parse device-info"
          (env.decode_device_infos (data_of (bytes "device-info") config))
    _ ← wrap_result "invalid device-info" (validate_device_info infos)
    let prefix = data_of (bytes "label-prefix") config
    _ ←
        (if is_valid_label_name_prefix env prefix
          then ok tt
          else err (message "invalid label prefix"))
    ids ←
        decoded "failed to parse fabric-id-range"
          (env.decode_ids (data_of (bytes "fabric-id-range") config))
    if ltb 100 (length ids)
        then err (message "fabric-id-range exceeds 100 item limit")
        else ok (record { device_infos = infos; label_prefix = prefix; fabric_id_range = ids })

  -- `GetConfigMapInfo`
  unfoldable pub get_config_map_info : Program env ComposableDraSpec
  get_config_map_info =
      Effects.◌>>=◌
        (wrap "failed to get ConfigMap"
          (request (env.get_config_map (bytes "composable-dra") (bytes "composable-dra-dds"))))
        λ config. lift (spec_of config)
