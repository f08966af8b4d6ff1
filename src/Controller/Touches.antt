-- ===== src/Controller/Touches.antt =====
-- What updateComposableResourceLastUsedTime sends.
use dynamic_device_scaler.Base.{Text, true, Option, none, some, List, ◌≡◌, refl, All-In, text_eq}
use dynamic_device_scaler.Types.{ResourceSliceInfo}
use dynamic_device_scaler.Kube.{ComposableResource, Write, is_online, patch_annotation}
use dynamic_device_scaler.Effects.{
  Environment, wrap, request, observe, Ensures, Always, Ensures-weaken, pure-Ensures, wrap-Ensures,
  read-Ensures, observe-Ensures, for_each-Ensures, >>=-Ensures, branch-Ensures,
}
use dynamic_device_scaler.LastUsed.{last_used_label}
use dynamic_device_scaler.Patch.{patch_composable_resource_annotation}
use dynamic_device_scaler.Patch.Annotations.{patch_composable_resource_annotation-Ensures}
use dynamic_device_scaler.Usage.{is_device_resource_slice_red}
use dynamic_device_scaler.Usage.Sends.{is_device_used_by_pod-Ensures}
use dynamic_device_scaler.Controller.{
  touch_if_used, touch_resource, update_composable_resource_last_used_time,
}

-- The last-used time of an online resource whose device a slice lists.
pub record Touches (slices : List ResourceSliceInfo) (prefix : Text) (w : Write) : Type 0 where
  pub resource : ComposableResource
  pub online : is_online resource.state ≡ true
  pub slice : ResourceSliceInfo
  pub device : Text
  pub listed : is_device_resource_slice_red resource.device_id slices ≡ some (slice, device)
  pub time : Text
  pub written : w ≡ patch_annotation resource.name (last_used_label prefix) time

module _ (env : Environment) where
  touch_if_used-Ensures :
      (slices : List ResourceSliceInfo) (prefix : Text) (r : ComposableResource)
      (red : Option (ResourceSliceInfo × Text))
      → is_online r.state ≡ true
      → is_device_resource_slice_red r.device_id slices ≡ red
      → Ensures (Touches slices prefix) Always (touch_if_used env prefix r red)
  unfolding touch_if_used
  touch_if_used-Ensures slices prefix r none o e = pure-Ensures tt tt
  touch_if_used-Ensures slices prefix r (some (slice, device)) o e =
      >>=-Ensures {Q = Always} _ _
        (wrap-Ensures _ _ (is_device_used_by_pod-Ensures env device slice))
        λ used _.
          branch-Ensures used _ _
            (λ _.
              >>=-Ensures {Q = Always} (observe env.now)
                (λ now. wrap "failed to update ComposableResource" (
                  patch_composable_resource_annotation env r.name (last_used_label prefix)
                    (env.format_rfc3339 now)))
                (observe-Ensures env.now (λ s. tt))
                λ now _. wrap-Ensures "failed to update ComposableResource" _ (
                  Ensures-weaken
                    (λ w q. record {
                      resource = r;
                      online = o;
                      slice = slice;
                      device = device;
                      listed = e;
                      time = env.format_rfc3339 now;
                      written = q;
                    })
                    (λ _ _. tt)
                    (patch_composable_resource_annotation-Ensures env r.name
                      (last_used_label prefix) (env.format_rfc3339 now))))
            (λ _. pure-Ensures tt tt)

  pub update-Ensures :
      (slices : List ResourceSliceInfo) (prefix : Text)
      → Ensures
          (Touches slices prefix)
          Always
          (update_composable_resource_last_used_time env slices prefix)
  unfolding update_composable_resource_last_used_time touch_resource
  update-Ensures slices prefix =
      >>=-Ensures {Q = Always} (wrap _ (request env.list_resources)) _
        (read-Ensures _ env.list_resources)
        λ resources _. for_each-Ensures resources _ (
          All-In resources λ r m.
            branch-Ensures (is_online r.state) _ _
              (λ o. touch_if_used-Ensures slices prefix r _ o refl) (λ _. pure-Ensures tt tt))
