-- ===== src/Scaling/Takes.antt =====
-- What DynamicAttach and DynamicDetach have done when they return without an error.
use dynamic_device_scaler.Base.{
  ℤ, ◌≤ℤ◌, ltb_ℤ, Text, Option, some, none, ◌≡◌, refl, bytes, text_eq, arith,
}
use dynamic_device_scaler.Types.{Duration}
use dynamic_device_scaler.Kube.{ComposabilityRequest, create_request}
use dynamic_device_scaler.Effects.{
  Reply, done, refused, Environment, NamesAgree, ok, wrap, here, pure-Runs, if-Runs, wrap-Runs,
  Does, Answers, took, at_once, pure-Does, Answers-Does, Does-weaken, Ensures-ok, wrap-Ensures,
  branch-Does, >>=-Does,
}
use dynamic_device_scaler.Patch.Takes.{patch_composability_request_size-Does}
use dynamic_device_scaler.Patch.Runs.{patch_composability_request_size-Runs}
use dynamic_device_scaler.Scaling.{
  result_of, new_request, create_new_composability_request_cr, get_next_size, dynamic_attach,
  dynamic_detach,
}
use dynamic_device_scaler.Scaling.Detach.{Shrinks, attach_write, get_next_size-Ensures}
use dynamic_device_scaler.Scaling.Runs.{get_next_size-Runs}

created-done :
    (r : Reply (Unit {0})) (a : Unit {0})
    → result_of "failed to create ComposabilityRequest" r ≡ ok a
    → r ≡ done tt
created-done (done _) a e = refl
created-done (refused x) a e = cc

module _ (env : Environment) (s0 : env.State) where
  -- The recently used resources keep the request from being shrunk.
  pub record IsHeld (cr : ComposabilityRequest) (count : ℤ) (node_name prefix : Text)
      (threshold : Duration) : Type 0 where
    pub next_size : ℤ
    pub answered :
        Answers env s0
          (wrap "failed to get next size" (get_next_size env count node_name prefix threshold))
          next_size
    pub not_smaller : cr.resource.size ≤ℤ next_size

module _ (env : Environment) (named : NamesAgree env) {s0 : env.State} where
  pub dynamic_attach-Does :
      (o : Option ComposabilityRequest) (count : ℤ) (resource_type model node_name : Text)
      → Does env s0
          (λ _. ⊥)
          (λ w. w ≡ attach_write o count resource_type model node_name)
          (dynamic_attach env o count resource_type model node_name)
  unfolding dynamic_attach create_new_composability_request_cr
  dynamic_attach-Does (some cr) count resource_type model node_name =
      patch_composability_request_size-Does env named cr.name count
  dynamic_attach-Does none count resource_type model node_name = record {
    at = λ s a l e.
        let w =
          create_request (bytes "composability-")
            (new_request count resource_type model node_name) in
        took w refl
          (at_once (λ i. (created-done (env.submit w s).0 a e i, (env.submit w s).1)) here);
  }

  pub dynamic_detach-Does :
      (cr : ComposabilityRequest) (count : ℤ) (node_name prefix : Text) (threshold : Duration)
      → Does env s0
          (λ _. IsHeld env s0 cr count node_name prefix threshold)
          (Shrinks cr count)
          (dynamic_detach env cr count node_name prefix threshold)
  unfolding dynamic_detach
  dynamic_detach-Does cr count node_name prefix threshold =
      >>=-Does (wrap _ (get_next_size env count node_name prefix threshold)) _
        (wrap-Runs _ _ (get_next_size-Runs env count node_name prefix threshold))
        (λ size.
          if-Runs (ltb_ℤ size cr.resource.size) _ _
            (patch_composability_request_size-Runs env cr.name size) (pure-Runs tt tt))
        (Answers-Does _)
        λ size answered.
          let (at, _, returned) = answered in
          branch-Does (ltb_ℤ size cr.resource.size) _ _
            (λ less.
              Does-weaken _ (λ _ x. absurd x)
                (λ w e. record {
                  size = size;
                  written = e;
                  covers =
                      Ensures-ok _ at
                        (wrap-Ensures {P = λ _. ⊥} _ _
                          (get_next_size-Ensures env count node_name prefix threshold))
                        returned;
                  smaller = ground arith;
                })
                (patch_composability_request_size-Does env named cr.name size))
            (λ more.
              pure-Does tt
                (record { next_size = size; answered = answered; not_smaller = ground arith }))
