-- ===== src/Patch/Annotations.antt =====
-- What PatchComposableResourceAnnotation sends, and that it leaves a value alone that is there.
use dynamic_device_scaler.Base.{
  ◌≤◌, Text, some, none, [], ◌≡◌, refl, All, length, ==_refl, text_eq, arith,
}
use dynamic_device_scaler.Kube.{ComposableResource, patch_annotation}
use dynamic_device_scaler.Effects.{
  done, ok, pure, wrap, Environment, request, Ensures, Always, pure-Ensures, read-Ensures,
  read-writes, >>=-Ensures, >>=-writes-le, if-Ensures, if-writes-le,
}
use dynamic_device_scaler.Patch.{
  finished, max_retries, annotation, annotation_round, is_set_to,
  patch_composable_resource_annotation,
}
use dynamic_device_scaler.Patch.Requests.{submit_round-Ensures, submit_round-writes-le}
use dynamic_device_scaler.Patch.Retry.{retry-Ensures, retry-writes-le}

module _ (env : Environment) (name key value : Text) where
  annotation_round-Ensures :
      Ensures
        (λ w. w ≡ patch_annotation name key value)
        Always
        (annotation_round env name key value)
  unfolding annotation_round
  annotation_round-Ensures =
      >>=-Ensures {Q = Always} (wrap _ (request (env.get_resource name))) _
        (read-Ensures _ (env.get_resource name))
        λ current _.
          if-Ensures (is_set_to value (annotation key current.annotations)) _ _
            (pure-Ensures finished tt) (submit_round-Ensures env _ _ refl)

  annotation_round-writes-le :
      (s : env.State) → length (annotation_round env name key value s).writes ≤ 1
  unfolding annotation_round
  annotation_round-writes-le s =
      >>=-writes-le (wrap _ (request (env.get_resource name))) _ 0 1 s
        (read-writes "failed to get latest ComposableResource" (env.get_resource name) s)
        λ current t.
          if-writes-le (is_set_to value (annotation key current.annotations)) (pure finished) _ 1 t
            (omega arith)
            (submit_round-writes-le env "failed to patch ComposableResource"
              (patch_annotation name key value) t)

  pub patch_composable_resource_annotation-Ensures :
      Ensures
        (λ w. w ≡ patch_annotation name key value)
        Always
        (patch_composable_resource_annotation env name key value)
  unfolding patch_composable_resource_annotation
  patch_composable_resource_annotation-Ensures =
      retry-Ensures max_retries none (annotation_round env name key value) annotation_round-Ensures

  -- Whatever the server answers, the only writes set this annotation of this resource, at most two
  -- times.
  pub patch_composable_resource_annotation-sends :
      (s : env.State)
      → All
          (λ w. w ≡ patch_annotation name key value)
          (patch_composable_resource_annotation env name key value s).writes
        × (length (patch_composable_resource_annotation env name key value s).writes ≤ max_retries)
  unfolding patch_composable_resource_annotation
  patch_composable_resource_annotation-sends s = (
    patch_composable_resource_annotation-Ensures.sends s,
    retry-writes-le max_retries none (annotation_round env name key value) s
        annotation_round-writes-le,
  )

  -- Where the resource already has the value, nothing is sent and no error is returned.
  pub patch_composable_resource_annotation_same :
      (s : env.State) (current : ComposableResource)
      → (env.get_resource name s).0 ≡ done current
      → annotation key current.annotations ≡ some value
      → ((patch_composable_resource_annotation env name key value s).result ≡ ok tt)
        × ((patch_composable_resource_annotation env name key value s).writes ≡ [])
  unfolding patch_composable_resource_annotation
  patch_composable_resource_annotation_same s current p q = ground (arith, ==_refl value)
