-- ===== src/Reschedule/Failed/Safety.antt =====
-- The promise of RescheduleFailedNotification: what it does to the claims of a node, and that the
-- claims that still wait for devices can be served together.
use dynamic_device_scaler.Base.{
  ℕ, pos, ◌<ℤ◌, true, false, ◌&&◌, some, List, ◌≡◌, ◌≢◌, subst, In, All, All-map_prop, any,
  any-false_of_In, get_elem?, length, ◌==◌, ==_iff, text_eq, arith,
}
use dynamic_device_scaler.Types.{
  preparing, failed, state_eq, ComposableDraSpec, NodeInfo, ResourceClaimDevice, ResourceClaimInfo,
  ResourceSliceInfo,
}
use dynamic_device_scaler.Kube.{ComposabilityRequest, ComposableResource, is_online_or_attaching}
use dynamic_device_scaler.Effects.{
  done, ok, Environment, wrap, request, NamesAgree, OnOk, Ensures, Always, Ensures-weaken,
  Ensures-ok, read-Ensures, >>=-Ensures, >>=-ok, read-ok,
}
use dynamic_device_scaler.Models.{is_device_coexistence}
use dynamic_device_scaler.Reschedule.{descending, sort_by_time}
use dynamic_device_scaler.Reschedule.States.{
  all_preparing, AllBecome, AllBecome-refl, AllBecome-length, lt_of_get,
}
use dynamic_device_scaler.Reschedule.Failed.{
  Scene, scene, clashes_in_claim, clashes_with_request, clashes_with_resource, clashes_with_claim,
  failed_loop, reschedule_failed_notification,
}
use dynamic_device_scaler.Reschedule.Failed.Verdicts.{IsFit}
use dynamic_device_scaler.Reschedule.Failed.Outcome.{FailsClaim, OutcomeOf, failed_loop-Ensures}

-- A device whose model excludes no model that is there or that is waited for.
pub record IsCompatible (sc : Scene) (claims : List ResourceClaimInfo) (rc : ResourceClaimInfo)
    (d : ResourceClaimDevice) : Type 0 where
  -- The other devices of its claim.
  pub in_claim :
      (other : ResourceClaimDevice)
      → In other rc.devices
      → is_device_coexistence d.model other.model sc.spec ≡ true
  -- The models requested for the node.
  pub with_requests :
      (cr : ComposabilityRequest)
      → In cr sc.requests
      → pos 0 <ℤ cr.resource.size
      → cr.resource.target_node ≡ rc.node_name
      → is_device_coexistence d.model cr.resource.model sc.spec ≡ true
  -- The resources that the node has or is about to have.
  pub with_resources :
      (r : ComposableResource)
      → In r sc.resources
      → is_online_or_attaching r.state ≡ true
      → r.target_node ≡ rc.node_name
      → is_device_coexistence d.model r.model sc.spec ≡ true
  -- The devices that the other claims still wait for. Claims are told apart by their names.
  pub with_claims :
      (rc2 : ResourceClaimInfo) (d2 : ResourceClaimDevice)
      → In rc2 claims
      → rc.name ≢ rc2.name
      → In d2 rc2.devices
      → d2.state ≡ preparing
      → is_device_coexistence d.model d2.model sc.spec ≡ true

module _ (sc : Scene) (claims : List ResourceClaimInfo) (rc : ResourceClaimInfo)
    (d : ResourceClaimDevice) where
  coexist_of_fit :
      (other : ResourceClaimDevice)
      → clashes_in_claim sc d other ≡ false
      → is_device_coexistence d.model other.model sc.spec ≡ true
  unfolding is_device_coexistence
  coexist_of_fit other h = ground arith

  IsFit→IsCompatible : IsFit sc rc claims d → IsCompatible sc claims rc d
  IsFit→IsCompatible f = record {
    in_claim = λ other m.
        coexist_of_fit other
          (any-false_of_In (clashes_in_claim sc d) other rc.devices f.in_claim m);
    with_requests = λ cr m size node.
        let h = any-false_of_In (clashes_with_request sc rc d) cr sc.requests f.with_requests m in
        ground (arith, ==_iff cr.resource.target_node rc.node_name);
    with_resources = λ r m state node.
        let h = any-false_of_In (clashes_with_resource sc rc d) r sc.resources f.with_resources m in
        ground (arith, ==_iff r.target_node rc.node_name);
    with_claims = λ rc2 d2 m other m2 waits.
        let h = any-false_of_In (clashes_with_claim sc rc d) rc2 claims f.with_claims m in
        let all_fit : any (λ e. e.state == preparing && clashes_in_claim sc d e) rc2.devices
            ≡ false =
          ground (arith, ==_iff rc.name rc2.name) in
        let g =
          any-false_of_In (λ d2. d2.state == preparing && clashes_in_claim sc d d2) d2 rc2.devices
            all_fit m2 in
        coexist_of_fit d2 (ground (arith, ==_iff d2.state preparing));
  }

module _ (env : Environment) (named : NamesAgree env) (node : NodeInfo)
    (claims : List ResourceClaimInfo) (slices : List ResourceSliceInfo)
    (spec : ComposableDraSpec) where
  start-Ensures :
      (sc : Scene)
      → Ensures
          (FailsClaim (sort_by_time env descending claims))
          (OutcomeOf sc env named (sort_by_time env descending claims))
          (failed_loop sc env
            (length (sort_by_time env descending claims))
            0
            (sort_by_time env descending claims))
  start-Ensures sc =
      let sorted = sort_by_time env descending claims in
      failed_loop-Ensures sc env named sorted (length sorted) 0 sorted (omega arith)
        (AllBecome-refl failed sorted) (λ i rc lt. absurd (omega arith))

  pub notification-Ensures :
      Ensures
        (FailsClaim (sort_by_time env descending claims))
        (AllBecome failed (sort_by_time env descending claims))
        (reschedule_failed_notification env node claims slices spec)
  unfolding reschedule_failed_notification
  notification-Ensures =
      >>=-Ensures {Q = Always} (wrap _ (request env.list_requests)) _
        (read-Ensures _ env.list_requests)
        λ requests _.
          >>=-Ensures {Q = Always} (wrap _ (request env.list_resources)) _
            (read-Ensures _ env.list_resources)
            λ resources _.
              >>=-Ensures {Q = Always} (wrap _ (request env.list_slices)) _
                (read-Ensures _ env.list_slices)
                λ _ _.
                  Ensures-weaken (λ w h. h) (λ out h. h.0)
                    (start-Ensures (scene node slices spec requests resources))

  -- The claims come back in the order of the sort, each as it was or with all of its devices in
  -- state Failed, and the only writes set FabricDeviceFailed on claims of the node.
  pub reschedule_failed_notification-claims :
      (s : env.State)
      → All
          (FailsClaim (sort_by_time env descending claims))
          (reschedule_failed_notification env node claims slices spec s).writes
        × OnOk
            (AllBecome failed (sort_by_time env descending claims))
            (reschedule_failed_notification env node claims slices spec s).result
  reschedule_failed_notification-claims s =
      (notification-Ensures.sends s, notification-Ensures.returns s)

  -- Where it returns claims, the server has answered the lists of the requests and the resources,
  -- and a claim of the result whose devices are all in state Preparing excludes nothing: no model
  -- of its other devices, of a request or a resource of its node, or of a device in state Preparing
  -- of a claim of another name.
  pub reschedule_failed_notification-IsCompatible :
      (s : env.State) {out : List ResourceClaimInfo}
      → (reschedule_failed_notification env node claims slices spec s).result ≡ ok out
      → (requests : List ComposabilityRequest) × (resources : List ComposableResource)
        × ((env.list_requests s).0 ≡ done requests)
        × ((env.list_resources (env.list_requests s).1).0 ≡ done resources)
        × ((k : ℕ) (rc : ResourceClaimInfo)
            → get_elem? out k ≡ some rc
            → all_preparing rc ≡ true
            → All (IsCompatible (scene node slices spec requests resources) out rc) rc.devices)
  unfolding reschedule_failed_notification
  reschedule_failed_notification-IsCompatible s {out} h =
      let (requests, p1, h1, _) =
        >>=-ok (wrap "failed to list composabilityRequestList" (request env.list_requests)) _ s h in
      let (resources, p2, h2, _) =
        >>=-ok (wrap "failed to list composableResource" (request env.list_resources)) _ _ h1 in
      let (_, _, h3, _) =
        >>=-ok (wrap "failed to list ResourceSlices" (request env.list_slices)) _ _ h2 in
      let (q1, t1) = read-ok "failed to list composabilityRequestList" env.list_requests s p1 in
      let (q2, t2) = read-ok "failed to list composableResource" env.list_resources _ p2 in
      let sc = scene node slices spec requests resources in
      let done_out = Ensures-ok _ _ (start-Ensures sc) h3 in
      (
        requests,
        resources,
        q1,
        subst (λ t. (env.list_resources t).0 ≡ done resources) t1 q2,
        λ k rc e ready.
            All-map_prop rc.devices (λ d. IsFit→IsCompatible sc out rc d)
              (done_out.1 k rc
                (omega (
                  arith,
                  lt_of_get out k e,
                  AllBecome-length failed (sort_by_time env descending claims) out done_out.0,
                ))
                e ready),
      )
