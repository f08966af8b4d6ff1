-- ===== src/Controller/Takes.antt =====
-- What handleDevices has done when it returns without an error.
use dynamic_device_scaler.Base.{
  [], ℕ, ℤ, pos, ≤ℤ_antisym, ◌≤ℤ◌, ◌<ℤ◌, ltb_ℤ, Option, none, some, List, find_first, ◌≡◌, refl,
  text_eq, arith,
}
use dynamic_device_scaler.Types.{
  DeviceInfo, ComposableDraSpec, NodeInfo, ResourceClaimInfo, ResourceSliceInfo,
}
use dynamic_device_scaler.Kube.{ComposabilityRequest, Write}
use dynamic_device_scaler.Effects.{
  here, done, ok, message, wrap, Environment, NamesAgree, Does, AllDone, Answers, pure-Does,
  fail-Does, wrap-Does, Answers-Does, Does-weaken, branch-Does, >>=-Does, wrap-Runs, if-Runs,
  fail-Runs, for_each-AllDone,
}
use dynamic_device_scaler.Models.{get_model_limit, get_driver_type}
use dynamic_device_scaler.Usage.{get_configured_device_count}
use dynamic_device_scaler.Usage.Runs.{get_configured_device_count-Runs}
use dynamic_device_scaler.Scaling.Takes.{IsHeld, dynamic_attach-Does, dynamic_detach-Does}
use dynamic_device_scaler.Controller.{
  Settings, is_request_for, at_least, scale_request, handle_device, handle_devices,
}
use dynamic_device_scaler.Controller.Runs.{scale_request-Runs, handle_device-Runs}
use dynamic_device_scaler.Controller.Sizes.{ScalesTo, grow, shrink, create}

module _ (env : Environment) (s0 : env.State) (settings : Settings) (spec : ComposableDraSpec)
    (node : NodeInfo) (claims : List ResourceClaimInfo) (slices : List ResourceSliceInfo)
    (requests : List ComposabilityRequest) where
  -- Nothing is to be sent for the model at this target.
  pub data Rests (device : DeviceInfo) (target : ℤ) : Type 0 where
    -- The first request for the model on the node has the size.
    at_size :
        (cr : ComposabilityRequest)
        → find_first (is_request_for device.cdi_model_name node.name) requests ≡ some cr
        → cr.resource.size ≡ target
        → Rests device target
    -- It has more, and as many recently used resources are kept.
    held :
        (cr : ComposabilityRequest)
        → find_first (is_request_for device.cdi_model_name node.name) requests ≡ some cr
        → target <ℤ cr.resource.size
        → IsHeld env s0 cr target node.name spec.label_prefix settings.device_no_removal
        → Rests device target
    -- There is no request, and none is needed.
    unneeded :
        find_first (is_request_for device.cdi_model_name node.name) requests ≡ none
        → target ≤ℤ pos 0
        → Rests device target

  -- Something holds of the target of a model: the count that was found to be needed, which is
  -- within the maximum of the node, raised to the minimum.
  pub record AtTarget (Holds : ℤ → Type 0) (device : DeviceInfo) : Type 0 where
    pub count : ℕ
    pub counted :
        Answers env s0
          (wrap "failed to get configured device count"
            (get_configured_device_count env device.cdi_model_name node.name claims slices))
          count
    pub within : pos count ≤ℤ (get_model_limit node device.cdi_model_name).0
    pub holds : Holds (at_least (get_model_limit node device.cdi_model_name).1 (pos count))

  abbrev pub RestsAt : DeviceInfo → Type 0
  RestsAt device = AtTarget (Rests device) device

  abbrev pub ScalesAt : DeviceInfo → Write → Type 0
  ScalesAt device w = AtTarget (λ target. ScalesTo node device requests target w) device

  module _ (named : NamesAgree env) where
    scale_request-Does :
        (device : DeviceInfo) (target : ℤ) (o : Option ComposabilityRequest)
        → find_first (is_request_for device.cdi_model_name node.name) requests ≡ o
        → Does env s0
            (λ _. Rests device target)
            (ScalesTo node device requests target)
            (scale_request env settings spec node device target o)
    unfolding scale_request
    scale_request-Does device target (some cr) found =
        branch-Does (ltb_ℤ cr.resource.size target) _ _
          (λ less. wrap-Does _ _ (
            Does-weaken _ (λ _ x. absurd x) (λ w e. grow cr found (ground arith) e)
              (dynamic_attach-Does env named (some cr) target cr.resource.type device.cdi_model_name
                node.name)))
          λ not_less.
            branch-Does (ltb_ℤ target cr.resource.size) _ _
              (λ more. wrap-Does _ _ (
                Does-weaken _ (λ _ h. held cr found (ground arith) h) (λ w e. shrink cr found e)
                  (dynamic_detach-Does env named cr target node.name spec.label_prefix
                    settings.device_no_removal)))
              λ not_more. pure-Does tt (
                at_size cr found (≤ℤ_antisym cr.resource.size target (ground arith) (ground arith)))
    scale_request-Does device target none found =
        branch-Does (ltb_ℤ (pos 0) target) _ _
          (λ needed. wrap-Does _ _ (
            Does-weaken _ (λ _ x. absurd x) (λ w e. create found (ground arith) e)
              (dynamic_attach-Does env named none target (get_driver_type device.driver_name)
                device.cdi_model_name node.name)))
          λ not_needed. pure-Does tt (unneeded found (ground arith))

    handle_device-Does :
        (device : DeviceInfo)
        → Does env s0
            (λ _. RestsAt device)
            (ScalesAt device)
            (handle_device env settings spec node claims slices requests device)
    unfolding handle_device
    handle_device-Does device =
        let (high, low) = get_model_limit node device.cdi_model_name in
        >>=-Does _ _
          (wrap-Runs _ _
            (get_configured_device_count-Runs env device.cdi_model_name node.name claims slices))
          (λ count.
            if-Runs (ltb_ℤ high (pos count)) _ _
              (fail-Runs (message "configured device count exceeds max limit"))
              (scale_request-Runs env settings spec node device (at_least low (pos count))
                (find_first (is_request_for device.cdi_model_name node.name) requests)))
          (Answers-Does _)
          λ count counted.
            branch-Does (ltb_ℤ high (pos count)) _ _ (λ _. fail-Does _)
              λ within.
                Does-weaken _
                  (λ _ h. record {
                    count = count;
                    counted = counted;
                    within = ground arith;
                    holds = h;
                  })
                  (λ w h. record {
                    count = count;
                    counted = counted;
                    within = ground arith;
                    holds = h;
                  })
                  (scale_request-Does device (at_least low (pos count)) _ refl)

-- Where handleDevices returns without an error, each configured model is dealt with at a target: a
-- count that GetConfiguredDeviceCount returns in a state that calls lead to from the list of the
-- requests, within the maximum of the node and raised to the minimum. The server has taken the
-- write that scales the model to the target, or there was no need: the first request listed for
-- the model has that size, or it has more and recently used devices keep it from shrinking, or
-- there is none and none is needed.
pub handle_devices-AllDone :
    (env : Environment)
    → NamesAgree env
    → (settings : Settings) (node : NodeInfo) (claims : List ResourceClaimInfo)
      (slices : List ResourceSliceInfo) (spec : ComposableDraSpec) (s : env.State)
      (requests : List ComposabilityRequest)
    → (env.list_requests s).0 ≡ done requests
    → let r = handle_devices env settings node claims slices spec s in
      r.result ≡ ok tt
      → AllDone env
          (RestsAt env (env.list_requests s).1 settings spec node claims slices requests)
          (ScalesAt env (env.list_requests s).1 settings spec node claims slices requests)
          spec.device_infos
          (env.list_requests s).1
          r.writes
          r.state
unfolding handle_devices
handle_devices-AllDone env named settings node claims slices spec s requests listed = rw listed λ e.
    for_each-AllDone env _ _ spec.device_infos
      (handle_device env settings spec node claims slices requests)
      (handle_device-Runs env settings spec node claims slices requests)
      (handle_device-Does env (env.list_requests s).1 settings spec node claims slices requests
        named)
      (env.list_requests s).1 ([], here) e
