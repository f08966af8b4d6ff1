-- ===== src/Scaling.antt =====
-- internal/utils/device_utils.go, the scaling: DynamicAttach, DynamicDetach and the next size.
pub mod Detach
pub mod NextSize
pub mod Runs
pub mod Takes
use dynamic_device_scaler.Base.{
  ℕ, suc, ℤ, pos, ltb, ltb_ℤ, Text, String, Bool, true, false, not, ◌&&◌, Option, none, some, List,
  [], ◌∷◌, ◌==◌, text_eq, bytes, if◌then◌else◌,
}
use dynamic_device_scaler.Types.{Time, Duration}
use dynamic_device_scaler.Kube.{
  ResourceDetails, ComposabilityRequest, ComposableResource, create_request, is_online_or_attaching,
}
use dynamic_device_scaler.Effects.{
  ApiError, Reply, done, refused, api, wrapped, Result, ok, err, pure, lift, wrap, ◌>>=◌, ◌>>◌,
  Environment, Program, request, send,
}
use dynamic_device_scaler.LastUsed.{is_last_used_over_threshold}
use dynamic_device_scaler.Patch.{patch_composability_request_size}

abbrev result_of : String → Reply (Unit {0}) → Result (Unit {0})
result_of text (done _) = ok tt
result_of text (refused e) = err (wrapped text (api e))

abbrev pub is_nil : Option Time → Bool
is_nil none = true
is_nil (some t) = false

-- Every resource that the node has or is about to have, of whatever model, and that is not on its
-- way out.
abbrev pub is_kept : Text → ComposableResource → Bool
is_kept node_name r =
    is_online_or_attaching r.state && r.target_node == node_name && is_nil r.deletion_timestamp

abbrev pub new_request : ℤ → Text → Text → Text → ResourceDetails
new_request count resource_type model node = record {
  type = resource_type;
  model = model;
  size = count;
  target_node = node;
}

module _ (env : Environment) where
  -- `createNewComposabilityRequestCR`
  unfoldable pub create_new_composability_request_cr :
      ℤ → Text → Text → Text → Program env (Unit {0})
  create_new_composability_request_cr count resource_type model node = do
    reply ←
        send env
          (create_request (bytes "composability-") (new_request count resource_type model node))
    lift (result_of "failed to create ComposabilityRequest" reply)

  unfoldable pub dynamic_attach :
      Option ComposabilityRequest → ℤ → Text → Text → Text → Program env (Unit {0})
  unfolding create_new_composability_request_cr
  dynamic_attach none count resource_type model node_name =
      create_new_composability_request_cr count resource_type model node_name
  dynamic_attach (some cr) count resource_type model node_name =
      patch_composability_request_size env cr.name count

  count_recent : Text → Text → Duration → ℕ → List ComposableResource → Program env ℕ
  count_recent node_name label_prefix threshold count [] = pure count
  count_recent node_name label_prefix threshold count (r ∷ rs) =
      (if is_kept node_name r
        then is_last_used_over_threshold env r label_prefix threshold true
        else pure true)
      >>= λ over.
          count_recent node_name label_prefix threshold (if over then count else suc count) rs

  -- `getNextSize`
  unfoldable pub get_next_size : ℤ → Text → Text → Duration → Program env ℤ
  unfolding count_recent
  get_next_size count node_name label_prefix device_no_removal = do
    resources ← wrap "failed to list ComposableResourceList" (request env.list_resources)
    recent ← count_recent node_name label_prefix device_no_removal 0 resources
    pure (if ltb_ℤ (pos recent) count then count else pos recent)

  unfoldable pub dynamic_detach :
      ComposabilityRequest → ℤ → Text → Text → Duration → Program env (Unit {0})
  unfolding get_next_size
  dynamic_detach cr count node_name label_prefix device_no_removal = do
    next_size ←
        wrap "failed to get next size"
          (get_next_size count node_name label_prefix device_no_removal)
    if ltb_ℤ next_size cr.resource.size
        then patch_composability_request_size env cr.name next_size
        else pure tt
