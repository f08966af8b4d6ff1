-- ===== src/Patch/Runs.antt =====
-- The patches as sequences of calls that never panic.
use dynamic_device_scaler.Base.{
  ℕ, zero, suc, refl, none, ℤ, Text, String, Option, some, List, [], ◌∷◌, text_eq,
}
use dynamic_device_scaler.Kube.{
  DeviceStatus, ResourceClaim, Write, patch_size, patch_annotation, patch_claim_devices,
  patch_node_labels,
}
use dynamic_device_scaler.Effects.{
  conflict, other, done, refused, Reply, ApiError, max_retries_reached, Environment, Program, lift,
  send, wrap, request, observe, Runs, Any, Returns, gets_claim, gets_request, gets_resource,
  pure-Runs, fail-Runs, lift-Runs, read-Runs, now-Runs, send-Runs, >>=-Runs, if-Runs,
}
use dynamic_device_scaler.Patch.Requests.{submit_round}
use dynamic_device_scaler.Patch.{
  Attempt, finished, conflicted, attempt_of, after_attempt, retry, max_retries, labels_patch,
  prepared_devices, annotation, is_set_to, with_conditions, with_condition, patch_node_label,
  annotation_round, patch_composable_resource_annotation, size_round,
  patch_composability_request_size, patch_devices, conditions_round,
  patch_resource_claim_device_conditions,
}

attempt_of-Returns : (text : String) (r : Reply (Unit {0})) → Returns Any (attempt_of text r)
attempt_of-Returns text (done _) = tt
attempt_of-Returns text (refused conflict) = tt
attempt_of-Returns text (refused (other e)) = tt

module _ (env : Environment) where
  pub submit_round-Runs : (text : String) (w : Write) → Runs env Any (submit_round env text w)
  submit_round-Runs text w =
      >>=-Runs {Q = Any} (send env w) (λ reply. lift (attempt_of text reply)) (send-Runs env w)
        λ reply _. lift-Runs (attempt_of text reply) (attempt_of-Returns text reply)

  pub after_attempt-Runs :
      (a : Attempt) (next : ApiError → Program env (Unit {0}))
      → ((e : ApiError) → Runs env Any (next e))
      → Runs env Any (after_attempt a next)
  after_attempt-Runs finished next h = pure-Runs tt tt
  after_attempt-Runs (conflicted e) next h = h e

  pub retry-Runs :
      (n : ℕ) (last : Option ApiError) (round : Program env Attempt)
      → Runs env Any round
      → Runs env Any (retry n last round)
  unfolding retry
  retry-Runs zero last round h = fail-Runs (max_retries_reached last)
  retry-Runs (suc n) last round h =
      >>=-Runs {Q = Any} round _ h λ a _. after_attempt-Runs a _ λ e. retry-Runs n (some e) round h

  pub patch_node_label-Runs :
      (node_name : Text) (added deleted : List Text)
      → Runs env Any (patch_node_label env node_name added deleted)
  unfolding patch_node_label
  patch_node_label-Runs node_name added deleted =
      let w = patch_node_labels node_name (labels_patch added deleted) in
      retry-Runs max_retries none (submit_round env "patch failed" w)
        (submit_round-Runs "patch failed" w)

  pub annotation_round-Runs :
      (name key value : Text) → Runs env Any (annotation_round env name key value)
  unfolding annotation_round
  annotation_round-Runs name key value =
      >>=-Runs {Q = Any} (wrap _ (request (env.get_resource name))) _
        (read-Runs env _ (env.get_resource name) (λ s. gets_resource name refl))
        λ current _.
          if-Runs (is_set_to value (annotation key current.annotations)) _ _ (pure-Runs finished tt)
            (submit_round-Runs "failed to patch ComposableResource"
              (patch_annotation name key value))

  pub patch_composable_resource_annotation-Runs :
      (name key value : Text)
      → Runs env Any (patch_composable_resource_annotation env name key value)
  unfolding patch_composable_resource_annotation
  patch_composable_resource_annotation-Runs name key value =
      retry-Runs max_retries none _ (annotation_round-Runs name key value)

  pub size_round-Runs : (name : Text) (size : ℤ) → Runs env Any (size_round env name size)
  unfolding size_round
  size_round-Runs name size =
      >>=-Runs {Q = Any} (wrap _ (request (env.get_request name))) _
        (read-Runs env _ (env.get_request name) (λ s. gets_request name refl))
        λ existing _.
          submit_round-Runs "failed to patch ComposabilityRequest" (patch_size existing.name size)

  pub patch_composability_request_size-Runs :
      (name : Text) (size : ℤ) → Runs env Any (patch_composability_request_size env name size)
  unfolding patch_composability_request_size
  patch_composability_request_size-Runs name size =
      retry-Runs max_retries none _ (size_round-Runs name size)

  with_conditions-Runs :
      (type : Text) (ds : List DeviceStatus) → Runs env Any (with_conditions env type ds)
  unfolding with_conditions
  with_conditions-Runs type [] = pure-Runs [] tt
  with_conditions-Runs type (d ∷ ds) =
      >>=-Runs {Q = Any} (observe env.now) _ (now-Runs env) λ now _.
        >>=-Runs {Q = Any} (with_conditions env type ds) _ (with_conditions-Runs type ds)
          λ rest _. pure-Runs (with_condition type now d ∷ rest) tt

  patch_devices-Runs :
      (type : Text) (existing : ResourceClaim) (ds : List DeviceStatus)
      → Runs env Any (patch_devices env type existing ds)
  unfolding patch_devices
  patch_devices-Runs type existing [] = pure-Runs finished tt
  patch_devices-Runs type existing (d ∷ ds) =
      >>=-Runs {Q = Any} (with_conditions env type (d ∷ ds)) _ (with_conditions-Runs type (d ∷ ds))
        λ devices _.
          submit_round-Runs "failed to patch ResourceClaim status"
            (patch_claim_devices existing.name existing.namespace devices)

  conditions_round-Runs :
      (name namespace type : Text) → Runs env Any (conditions_round env name namespace type)
  unfolding conditions_round
  conditions_round-Runs name namespace type =
      >>=-Runs {Q = Any} (wrap _ (request (env.get_claim name namespace))) _
        (read-Runs env _ (env.get_claim name namespace) (λ s. gets_claim name namespace refl))
        λ existing _. patch_devices-Runs type existing (prepared_devices existing)

  pub patch_resource_claim_device_conditions-Runs :
      (name namespace type : Text)
      → Runs env Any (patch_resource_claim_device_conditions env name namespace type)
  unfolding patch_resource_claim_device_conditions
  patch_resource_claim_device_conditions-Runs name namespace type =
      retry-Runs max_retries none _ (conditions_round-Runs name namespace type)
