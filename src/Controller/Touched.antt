-- ===== src/Controller/Touched.antt =====
-- What updateComposableResourceLastUsedTime has done when it returns without an error.
use dynamic_device_scaler.Base.{
  [], Text, false, Option, none, some, List, ◌≡◌, refl, subst, text_eq,
}
use dynamic_device_scaler.Types.{Time, ResourceSliceInfo}
use dynamic_device_scaler.Kube.{ComposableResource, Write, is_online, patch_annotation}
use dynamic_device_scaler.Effects.{
  here, done, ok, ◌>>=◌, Environment, Any, wrap, observe, Runs, Does, AllDone, Answers, pure-Does,
  Answers-Does, wrap-Does, Does-weaken, branch-Does, >>=-Does, wrap-Runs, if-Runs, pure-Runs,
  now-Runs, >>=-Runs, for_each-AllDone,
}
use dynamic_device_scaler.LastUsed.{last_used_label}
use dynamic_device_scaler.Patch.Takes.{HasValue, patch_composable_resource_annotation-Does}
use dynamic_device_scaler.Patch.{patch_composable_resource_annotation}
use dynamic_device_scaler.Patch.Runs.{patch_composable_resource_annotation-Runs}
use dynamic_device_scaler.Usage.{is_device_resource_slice_red, is_device_used_by_pod}
use dynamic_device_scaler.Usage.Runs.{is_device_used_by_pod-Runs}
use dynamic_device_scaler.Controller.{
  touch_if_used, touch_resource, update_composable_resource_last_used_time,
}
use dynamic_device_scaler.Controller.Runs.{touch_resource-Runs}

module _ (env : Environment) (s0 : env.State) (slices : List ResourceSliceInfo)
    (prefix : Text) where
  -- The clock was read, and its time is written so.
  pub record IsNow (text : Text) : Type 0 where
    pub now : Time
    pub read : Answers env s0 (observe env.now) now
    pub written : text ≡ env.format_rfc3339 now

  -- Why a resource is left as it is.
  pub data Untouched (r : ComposableResource) : Type 0 where
    not_online : is_online r.state ≡ false → Untouched r
    not_listed : is_device_resource_slice_red r.device_id slices ≡ none → Untouched r
    not_used :
        (slice : ResourceSliceInfo) (device : Text)
        → is_device_resource_slice_red r.device_id slices ≡ some (slice, device)
        → Answers env s0
            (wrap "failed to check if device is used by pod"
              (is_device_used_by_pod env device slice))
            false
        → Untouched r
    up_to_date :
        (text : Text)
        → IsNow text
        → HasValue env s0 r.name (last_used_label prefix) text
        → Untouched r

  -- The write of its last-used time.
  pub record TouchedBy (r : ComposableResource) (w : Write) : Type 0 where
    pub text : Text
    pub is_now : IsNow text
    pub write : w ≡ patch_annotation r.name (last_used_label prefix) text

  touch_if_used-Does :
      (r : ComposableResource) (o : Option (ResourceSliceInfo × Text))
      → is_device_resource_slice_red r.device_id slices ≡ o
      → Does env s0 (λ _. Untouched r) (TouchedBy r) (touch_if_used env prefix r o)
  unfolding touch_if_used
  touch_if_used-Does r none e = pure-Does tt (not_listed e)
  touch_if_used-Does r (some (slice, device)) e =
      >>=-Does _ _ (wrap-Runs _ _ (is_device_used_by_pod-Runs env device slice))
        (λ used. if-Runs used _ _ touch-Runs (pure-Runs tt tt)) (Answers-Does _)
        λ used answered.
          branch-Does used _ _
            (λ _.
              >>=-Does (observe env.now) _ (now-Runs env) patch-Runs (Answers-Does _) λ now read.
                wrap-Does "failed to update ComposableResource" _ (
                  Does-weaken _
                    (λ _ h.
                      up_to_date (env.format_rfc3339 now)
                        (record { now = now; read = read; written = refl }) h)
                    (λ w q. record {
                      text = env.format_rfc3339 now;
                      is_now = record { now = now; read = read; written = refl };
                      write = q;
                    })
                    (patch_composable_resource_annotation-Does env s0 r.name
                      (last_used_label prefix) (env.format_rfc3339 now))))
            λ unused. pure-Does tt (
              not_used slice device e (
                subst
                  (Answers env s0 (
                    wrap "failed to check if device is used by pod"
                      (is_device_used_by_pod env device slice)))
                  unused answered))
    where
      patch-Runs :
          (now : Time)
          → Runs env Any (
              wrap "failed to update ComposableResource" (
                patch_composable_resource_annotation env r.name
                  (last_used_label prefix)
                  (env.format_rfc3339 now)))
      patch-Runs now =
          wrap-Runs "failed to update ComposableResource" _
            (patch_composable_resource_annotation-Runs env r.name (last_used_label prefix) _)

      touch-Runs : Runs env Any (
          observe env.now >>= λ now. wrap "failed to update ComposableResource" (
            patch_composable_resource_annotation env r.name
              (last_used_label prefix)
              (env.format_rfc3339 now)))
      touch-Runs = >>=-Runs {Q = Any} (observe env.now) _ (now-Runs env) (λ now _. patch-Runs now)

  touch_resource-Does :
      (r : ComposableResource)
      → Does env s0 (λ _. Untouched r) (TouchedBy r) (touch_resource env prefix slices r)
  unfolding touch_resource
  touch_resource-Does r =
      branch-Does (is_online r.state) _ _
        (λ _. touch_if_used-Does r (is_device_resource_slice_red r.device_id slices) refl)
        λ offline. pure-Does tt (not_online offline)

-- Where updateComposableResourceLastUsedTime returns without an error, the server has taken a time
-- of the clock for each resource that was listed, or there was no need: it is not online, no slice
-- lists its device, or, in a state that calls lead to from the list of the resources, no claim has
-- the device or the resource has the time.
pub update_composable_resource_last_used_time-AllDone :
    (env : Environment) (slices : List ResourceSliceInfo) (prefix : Text) (s : env.State)
    (resources : List ComposableResource)
    → (env.list_resources s).0 ≡ done resources
    → let r = update_composable_resource_last_used_time env slices prefix s in
      r.result ≡ ok tt
      → AllDone env
          (Untouched env (env.list_resources s).1 slices prefix)
          (TouchedBy env (env.list_resources s).1 slices prefix)
          resources
          (env.list_resources s).1
          r.writes
          r.state
unfolding update_composable_resource_last_used_time
update_composable_resource_last_used_time-AllDone env slices prefix s resources listed =
    rw listed λ e.
      for_each-AllDone env _ _ resources (touch_resource env prefix slices)
        (touch_resource-Runs env prefix slices)
        (touch_resource-Does env (env.list_resources s).1 slices prefix) (env.list_resources s).1
        ([], here) e
