-- ===== src/Collect/Config/Accepted.antt =====
-- What an accepted ConfigMap satisfies.
use dynamic_device_scaler.Base.{
  ◌≤◌, ltb, pos, ltb_ℤ, ◌≤ℤ◌, true, ◌||◌, List, [], ◌∷◌, ◌≡◌, subst, All, length, nat_eq, bytes,
  if◌then◌else◌, arith,
}
use dynamic_device_scaler.Types.{DeviceInfo, ComposableDraSpec}
use dynamic_device_scaler.Kube.{ConfigMap}
use dynamic_device_scaler.Effects.{message, Result, ok, err, panic, wrap_result, Environment}
use dynamic_device_scaler.Effects.Results.{result_bind, ok-injective}
use dynamic_device_scaler.Collect.Names.{runes, validate_dns_label, is_valid_label_name_prefix}
use dynamic_device_scaler.Collect.Names.Checks.{
  is_name_rune, is_prefix_rune, NoTwoDots, if_ok, if_err, validate_dns_label-ok,
  is_valid_label_name_prefix-true,
}
use dynamic_device_scaler.Collect.Config.{
  check_device_info, validate_device_info, data_of, decoded, spec_of,
}

-- A device info within its bounds, whose name consists of letters, digits and dashes.
pub record IsInfo (env : Environment) (info : DeviceInfo) : Type 0 where
  pub index_low : pos 0 ≤ℤ info.index
  pub index_high : info.index ≤ℤ pos 10000
  pub model_length : length info.cdi_model_name ≤ 1024
  pub driver_length : length info.driver_name ≤ 1024
  pub name_low : 1 ≤ length info.k8s_device_name
  pub name_high : length info.k8s_device_name ≤ 50
  pub name_runes : All (λ c. is_name_rune env c ≡ true) (runes info.k8s_device_name)
  pub exclusions : length info.cannot_coexist_with ≤ 100

-- A specification within its bounds, with a label prefix of letters, digits, dashes and single dots.
pub record IsSpec (env : Environment) (spec : ComposableDraSpec) : Type 0 where
  pub infos : All (IsInfo env) spec.device_infos
  pub prefix_low : 1 ≤ length spec.label_prefix
  pub prefix_high : length spec.label_prefix ≤ 100
  pub prefix_runes : All (λ c. is_prefix_rune env c ≡ true) (runes spec.label_prefix)
  pub prefix_dots : NoTwoDots env 0 (runes spec.label_prefix)
  pub ids : length spec.fabric_id_range ≤ 100

unwrapped : {A : Type 0} (text : _) (r : Result A) {a : A} → wrap_result text r ≡ ok a → r ≡ ok a
unwrapped text (ok b) h = h
unwrapped text (err e) h = cc
unwrapped text (panic m) h = cc

module _ (env : Environment) where
  check_device_info-IsInfo :
      (info : DeviceInfo) → check_device_info env info ≡ ok tt → IsInfo env info
  unfolding check_device_info
  check_device_info-IsInfo info h =
      let (a, h1) =
        if_err (ltb_ℤ info.index (pos 0) || ltb_ℤ (pos 10000) info.index)
          (message "index must be between 0 and 10000") _ h in
      let (b, h2) =
        if_err (ltb 1024 (length info.cdi_model_name)) (message "cdi-model-name exceeds 1KB limit")
          _ h1 in
      let (c, h3) =
        if_err (ltb 1024 (length info.driver_name)) (message "driver-name exceeds 1KB limit") _
          h2 in
      let (_, d, h4) =
        result_bind
          (wrap_result "k8s-device-name invalid" (validate_dns_label env info.k8s_device_name 50)) _
          h3 in
      let (low, high, name) = validate_dns_label-ok env info.k8s_device_name 50 (unwrapped _ _ d) in
      let (e, _) =
        if_err (ltb 100 (length info.cannot_coexist_with))
          (message "cannot-coexist-with exceeds 100 item limit") (ok tt) h4 in
      record {
        index_low = ground arith;
        index_high = ground arith;
        model_length = ground arith;
        driver_length = ground arith;
        name_low = low;
        name_high = high;
        name_runes = name;
        exclusions = ground arith;
      }

  validate_device_info-All :
      (infos : List DeviceInfo) → validate_device_info env infos ≡ ok tt → All (IsInfo env) infos
  unfolding validate_device_info
  validate_device_info-All [] h = tt
  validate_device_info-All (info ∷ infos) h =
      let (_, p, q) = result_bind (check_device_info env info) _ h in
      (check_device_info-IsInfo info p, validate_device_info-All infos q)

  -- A ConfigMap that is accepted gives a specification within its bounds.
  pub spec_of-IsSpec :
      (config : ConfigMap) (spec : ComposableDraSpec)
      → spec_of env config ≡ ok spec
      → IsSpec env spec
  unfolding spec_of
  spec_of-IsSpec config spec h =
      let prefix = data_of env (bytes "label-prefix") config in
      let (infos, p, h1) =
        result_bind
          (decoded env "failed to parse device-info"
            (env.decode_device_infos (data_of env (bytes "device-info") config)))
          _ h in
      let (_, q, h2) =
        result_bind (wrap_result "invalid device-info" (validate_device_info env infos)) _ h1 in
      let (_, r, h3) =
        result_bind
          (if is_valid_label_name_prefix env prefix
            then ok tt
            else err (message "invalid label prefix"))
          _ h2 in
      let (ids, t, h4) =
        result_bind
          (decoded env "failed to parse fabric-id-range"
            (env.decode_ids (data_of env (bytes "fabric-id-range") config)))
          _ h3 in
      let (few, h5) =
        if_err (ltb 100 (length ids)) (message "fabric-id-range exceeds 100 item limit") _ h4 in
      let (good, _) =
        if_ok (is_valid_label_name_prefix env prefix) (ok tt) (message "invalid label prefix") r in
      let (low, high, each, dots) = is_valid_label_name_prefix-true env prefix good in
      subst (IsSpec env) (ok-injective _ spec h5) (record {
        infos = validate_device_info-All infos (unwrapped _ _ q);
        prefix_low = low;
        prefix_high = high;
        prefix_runes = each;
        prefix_dots = dots;
        ids = ground arith;
      })
