-- ===== src/Scaling/Runs.antt =====
-- The scaling as a sequence of calls that never panics.
use dynamic_device_scaler.Base.{
  ℕ, suc, refl, ℤ, ltb_ℤ, Text, true, Option, none, some, List, [], ◌∷◌, bytes, if◌then◌else◌,
}
use dynamic_device_scaler.Types.{Duration}
use dynamic_device_scaler.Kube.{ComposabilityRequest, ComposableResource, create_request}
use dynamic_device_scaler.Effects.{
  Environment, Reply, done, refused, send, wrap, request, Runs, Any, Returns, lists_resources,
  pure-Runs, lift-Runs, read-Runs, send-Runs, wrap-Runs, >>=-Runs, if-Runs,
}
use dynamic_device_scaler.LastUsed.Runs.{is_last_used_over_threshold-Runs}
use dynamic_device_scaler.Patch.Runs.{patch_composability_request_size-Runs}
use dynamic_device_scaler.Scaling.{
  result_of, is_kept, new_request, create_new_composability_request_cr, dynamic_attach,
  count_recent, get_next_size, dynamic_detach,
}

module _ (env : Environment) where
  pub created_text-Returns :
      (r : Reply (Unit {0})) → Returns Any (result_of "failed to create ComposabilityRequest" r)
  created_text-Returns (done _) = tt
  created_text-Returns (refused e) = tt

  pub dynamic_attach-Runs :
      (cr : Option ComposabilityRequest) (count : ℤ) (resource_type model node_name : Text)
      → Runs env Any (dynamic_attach env cr count resource_type model node_name)
  unfolding dynamic_attach create_new_composability_request_cr
  dynamic_attach-Runs (some cr) count resource_type model node_name =
      patch_composability_request_size-Runs env cr.name count
  dynamic_attach-Runs none count resource_type model node_name =
      let w =
        create_request (bytes "composability-") (new_request count resource_type model node_name) in
      >>=-Runs {Q = Any} (send env w) _ (send-Runs env w)
        λ reply _. lift-Runs _ (created_text-Returns reply)

  count_recent-Runs :
      (node_name prefix : Text) (threshold : Duration) (count : ℕ) (rs : List ComposableResource)
      → Runs env Any (count_recent env node_name prefix threshold count rs)
  unfolding count_recent
  count_recent-Runs node_name prefix threshold count [] = pure-Runs count tt
  count_recent-Runs node_name prefix threshold count (r ∷ rs) =
      >>=-Runs {Q = Any} _ _
        (if-Runs (is_kept node_name r) _ _
          (is_last_used_over_threshold-Runs env r prefix threshold true) (pure-Runs true tt))
        λ over _.
          count_recent-Runs node_name prefix threshold (if over then count else suc count) rs

  pub get_next_size-Runs :
      (count : ℤ) (node_name prefix : Text) (threshold : Duration)
      → Runs env Any (get_next_size env count node_name prefix threshold)
  unfolding get_next_size
  get_next_size-Runs count node_name prefix threshold =
      >>=-Runs {Q = Any} (wrap _ (request env.list_resources)) _
        (read-Runs env "failed to list ComposableResourceList" env.list_resources
          (λ s. lists_resources refl))
        λ rs _.
          >>=-Runs {Q = Any} (count_recent env node_name prefix threshold 0 rs) _
            (count_recent-Runs node_name prefix threshold 0 rs) λ recent _. pure-Runs _ tt

  pub dynamic_detach-Runs :
      (cr : ComposabilityRequest) (count : ℤ) (node_name prefix : Text) (threshold : Duration)
      → Runs env Any (dynamic_detach env cr count node_name prefix threshold)
  unfolding dynamic_detach
  dynamic_detach-Runs cr count node_name prefix threshold =
      >>=-Runs {Q = Any} (wrap _ (get_next_size env count node_name prefix threshold)) _
        (wrap-Runs _ _ (get_next_size-Runs count node_name prefix threshold))
        λ size _.
          if-Runs (ltb_ℤ size cr.resource.size) _ _
            (patch_composability_request_size-Runs env cr.name size) (pure-Runs tt tt)
