-- ===== src/Controller/Sizes.antt =====
-- Which sizes handleDevices asks for, whatever the cluster answers.
use dynamic_device_scaler.Base.{
  ℕ, ℤ, pos, ◌≤ℤ◌, ◌<ℤ◌, ltb_ℤ, Option, none, some, List, ◌≡◌, refl, inl, inr, In, All-In,
  find_first, Bool-cases, text_eq, arith, bytes,
}
use dynamic_device_scaler.Types.{
  DeviceInfo, ComposableDraSpec, NodeInfo, ResourceClaimInfo, ResourceSliceInfo,
}
use dynamic_device_scaler.Kube.{ComposabilityRequest, Write, create_request, patch_size}
use dynamic_device_scaler.Effects.{
  message, Environment, NamesAgree, Ensures, Always, Ensures-weaken, pure-Ensures, fail-Ensures,
  wrap-Ensures, >>=-Ensures, if-Ensures, for_each, for_each-Ensures,
}
use dynamic_device_scaler.Models.{get_model_limit, get_driver_type}
use dynamic_device_scaler.Usage.Sends.{get_configured_device_count-Ensures}
use dynamic_device_scaler.Scaling.{new_request}
use dynamic_device_scaler.Scaling.Detach.{Shrinks, dynamic_attach-Ensures, dynamic_detach-Ensures}
use dynamic_device_scaler.Controller.{
  Settings, is_request_for, at_least, scale_request, handle_device,
}

-- A write that scales one device model of the node towards a target.
pub data ScalesTo (node : NodeInfo) (device : DeviceInfo) (requests : List ComposabilityRequest)
    (target : ℤ) (w : Write) : Type 0 where
  -- The first request for the model on the node grows to the target.
  grow :
      (cr : ComposabilityRequest)
      → find_first (is_request_for device.cdi_model_name node.name) requests ≡ some cr
      → cr.resource.size <ℤ target
      → w ≡ patch_size cr.name target
      → ScalesTo node device requests target w
  -- It shrinks, and stays at the target or above it.
  shrink :
      (cr : ComposabilityRequest)
      → find_first (is_request_for device.cdi_model_name node.name) requests ≡ some cr
      → Shrinks cr target w
      → ScalesTo node device requests target w
  -- There is none, and one is created at the target.
  create :
      find_first (is_request_for device.cdi_model_name node.name) requests ≡ none
      → pos 0 <ℤ target
      → w
        ≡ create_request (bytes "composability-") (
            new_request target (get_driver_type device.driver_name) device.cdi_model_name node.name)
      → ScalesTo node device requests target w

-- A write that scales a configured device model to a count within the maximum of the node, raised
-- to its minimum.
pub record IsScaling (node : NodeInfo) (spec : ComposableDraSpec)
    (requests : List ComposabilityRequest) (w : Write) : Type 0 where
  pub device : DeviceInfo
  pub configured : In device spec.device_infos
  pub count : ℕ
  pub within : pos count ≤ℤ (get_model_limit node device.cdi_model_name).0
  pub scales :
      ScalesTo node device requests
        (at_least (get_model_limit node device.cdi_model_name).1 (pos count))
        w

module _ (env : Environment) (named : NamesAgree env) (settings : Settings)
    (spec : ComposableDraSpec) (node : NodeInfo) (requests : List ComposabilityRequest) where
  pub scale_request-Ensures :
      (device : DeviceInfo) (target : ℤ) (o : Option ComposabilityRequest)
      → find_first (is_request_for device.cdi_model_name node.name) requests ≡ o
      → Ensures
          (ScalesTo node device requests target)
          Always
          (scale_request env settings spec node device target o)
  unfolding scale_request
  scale_request-Ensures device target (some cr) found =
      elim (Bool-cases (ltb_ℤ cr.resource.size target)) [
        | inl less ↦ rw less (
            wrap-Ensures _ _ (
              Ensures-weaken (λ w e. grow cr found (ground arith) e) (λ _ _. tt)
                (dynamic_attach-Ensures env named (some cr) target cr.resource.type
                  device.cdi_model_name node.name)))
        | inr more ↦ rw more (
            if-Ensures (ltb_ℤ target cr.resource.size) _ _
              (wrap-Ensures _ _ (
                Ensures-weaken (λ w e. shrink cr found e) (λ _ _. tt)
                  (dynamic_detach-Ensures env named cr target node.name spec.label_prefix
                    settings.device_no_removal)))
              (pure-Ensures tt tt))
      ]
  scale_request-Ensures device target none found = elim (Bool-cases (ltb_ℤ (pos 0) target)) [
    | inl some_needed ↦ rw some_needed (
        wrap-Ensures _ _ (
          Ensures-weaken (λ w e. create found (ground arith) e) (λ _ _. tt)
            (dynamic_attach-Ensures env named none target (get_driver_type device.driver_name)
              device.cdi_model_name node.name)))
    | inr none_needed ↦ rw none_needed (pure-Ensures tt tt)
  ]

  handle_device-Ensures :
      (claims : List ResourceClaimInfo) (slices : List ResourceSliceInfo) (device : DeviceInfo)
      → In device spec.device_infos
      → Ensures
          (IsScaling node spec requests)
          Always
          (handle_device env settings spec node claims slices requests device)
  unfolding handle_device
  handle_device-Ensures claims slices device configured =
      >>=-Ensures {Q = Always} _ _
        (wrap-Ensures _ _
          (get_configured_device_count-Ensures env device.cdi_model_name node.name claims slices))
        λ count _.
          elim (Bool-cases (ltb_ℤ (get_model_limit node device.cdi_model_name).0 (pos count))) [
            | inl over ↦
                rw over (fail-Ensures (message "configured device count exceeds max limit"))
            | inr within ↦ rw within (
                Ensures-weaken
                  (λ w e. record {
                    device = device;
                    configured = configured;
                    count = count;
                    within = ground arith;
                    scales = e;
                  })
                  (λ _ _. tt)
                  (scale_request-Ensures device
                    (at_least (get_model_limit node device.cdi_model_name).1 (pos count))
                    (find_first (is_request_for device.cdi_model_name node.name) requests) refl))
          ]

  pub handle_all-Ensures :
      (claims : List ResourceClaimInfo) (slices : List ResourceSliceInfo)
      → Ensures
          (IsScaling node spec requests)
          Always
          (for_each spec.device_infos (handle_device env settings spec node claims slices requests))
  handle_all-Ensures claims slices =
      for_each-Ensures spec.device_infos
        (handle_device env settings spec node claims slices requests)
        (All-In spec.device_infos (λ d m. handle_device-Ensures claims slices d m))
