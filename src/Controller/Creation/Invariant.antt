-- ===== src/Controller/Creation/Invariant.antt =====
-- There is never more than one request for a model on a node, whatever the server answers and the
-- other actors delete.
use dynamic_device_scaler.Base.{
  ◌≤◌, ◌≡◌, refl, Text, List, [], ◌∷◌, false, any, count_if, text_eq, Bool, Bool-cases, inl, inr,
  arith,
}
use dynamic_device_scaler.Types.{ComposableDraSpec, NodeInfo, ResourceClaimInfo, ResourceSliceInfo}
use dynamic_device_scaler.Kube.{ComposabilityRequest, ComposableResource, Write}
use dynamic_device_scaler.Effects.{
  Reply, done, refused, Environment, NamesAgree, RangesOver, OnOk, Ensures-weaken, Keeps,
  wrap-Keeps, then-Keeps, >>=-Keeps, for_each-Keeps, pure-Keeps, for_each-Runs, lists_requests,
}
use dynamic_device_scaler.Collect.Config.{get_config_map_info}
use dynamic_device_scaler.Collect.Sends.{get_config_map_info-Ensures}
use dynamic_device_scaler.Patch.Claims.{SetsCondition}
use dynamic_device_scaler.Reschedule.Failed.Safety.{notification-Ensures}
use dynamic_device_scaler.Reschedule.Failed.Runs.{reschedule_failed_notification-Runs}
use dynamic_device_scaler.Reschedule.Notification.Served.{Notifies, told, touched}
use dynamic_device_scaler.Reschedule.Notification.Runs.{reschedule_notification-Runs}
use dynamic_device_scaler.NodeLabel.Runs.{update_node_label-Runs}
use dynamic_device_scaler.Controller.{
  Settings, Collected, is_request_for, handle_device, handle_devices, handle_node, handle_nodes,
  collect_info, reconcile,
}
use dynamic_device_scaler.Controller.Touches.{update-Ensures}
use dynamic_device_scaler.Controller.Round.{
  own_claims, reschedule_notification-Ensures, update_node_label-Ensures,
}
use dynamic_device_scaler.Controller.Writes.{collect_info_spec-Ensures, collect_info-Ensures}
use dynamic_device_scaler.Controller.Runs.{
  ListsReadable, handle_device-Runs, update_composable_resource_last_used_time-Runs,
  collect_info-Runs,
}
use dynamic_device_scaler.Controller.Creation.{
  requests_for, CreatesNothing, OnlyCreator, HasAtMostOne, stored-Trace, Keeps-of,
}
use dynamic_device_scaler.Controller.Creation.Devices.{DistinctModels, created-handle_all}

count_if-none :
    (p : ComposabilityRequest → Bool) (xs : List ComposabilityRequest)
    → any p xs ≡ false
    → count_if p xs ≡ 0
count_if-none p [] h = refl
count_if-none p (x ∷ xs) h = ground (arith, count_if-none p xs)

module _ (env : Environment) (named : NamesAgree env) (only : OnlyCreator env) (settings : Settings)
    (slices : List ResourceSliceInfo) (spec : ComposableDraSpec)
    (distinct : DistinctModels spec.device_infos) (node : NodeInfo) where
  handle_listed :
      (claims : List ResourceClaimInfo) (s : env.State) (r : Reply (List ComposabilityRequest))
      → HasAtMostOne env only s
      → (env.list_requests s).0 ≡ r
      → HasAtMostOne env only (handle_devices env settings node claims slices spec s).state
  unfolding handle_devices
  handle_listed claims s (refused e) one answer = rw answer λ model node_name. omega (
    arith,
    one model node_name,
    only.moved s (env.list_requests s).1 (lists_requests refl) model node_name,
  )
  handle_listed claims s (done requests) one answer = rw answer λ model node_name.
      let body = handle_device env settings spec node claims slices requests in
      let t = (env.list_requests s).1 in
      let runs =
        for_each-Runs spec.device_infos body
          (λ d. handle_device-Runs env settings spec node claims slices requests d) in
      let grown = stored-Trace env only model node_name (runs.traced t) in
      let made =
        created-handle_all model node_name env named settings spec node requests claims slices t
          distinct in
      let shown = only.listed s requests answer model node_name in
      let before = only.moved s t (lists_requests refl) model node_name in
      elim (Bool-cases (any (is_request_for model node_name) requests)) [
        | inl e ↦ omega (arith, one model node_name, before, grown, rw e at made)
        | inr e ↦ omega (arith, shown, grown, rw e at made, count_if-none _ requests e)
      ]

  pub handle_devices-Keeps :
      (claims : List ResourceClaimInfo)
      → Keeps (HasAtMostOne env only) (handle_devices env settings node claims slices spec)
  handle_devices-Keeps claims = record {
    at = λ s one. handle_listed claims s (env.list_requests s).0 one refl;
  }

SetsCondition-none :
    (name namespace type : Text) (w : Write)
    → SetsCondition name namespace type w
    → CreatesNothing w
SetsCondition-none name namespace type w h model node_name = rw h.written refl

Notifies-none :
    {resources : List ComposableResource} {slices : List ResourceSliceInfo} {prefix : Text}
    {claims : List ResourceClaimInfo} (w : Write)
    → Notifies resources slices prefix claims w
    → CreatesNothing w
Notifies-none w (told rc taken m serves h) = SetsCondition-none rc.name rc.namespace _ w h
Notifies-none w (touched rc taken r time m serves t e) = λ model node_name. rw e refl

module _ (env : Environment) (named : NamesAgree env) (ranges : RangesOver env)
    (only : OnlyCreator env) (settings : Settings) where
  handle_node-Keeps :
      (claims : List ResourceClaimInfo) (slices : List ResourceSliceInfo) (spec : ComposableDraSpec)
      (node : NodeInfo)
      → DistinctModels spec.device_infos
      → Keeps (HasAtMostOne env only) (handle_node env settings claims slices spec node)
  unfolding handle_node
  handle_node-Keeps claims slices spec node distinct =
      let own = own_claims node claims in
      then-Keeps _ _
        (wrap-Keeps "failed to reschedule failed notification" _ (
          Keeps-of env only _ (reschedule_failed_notification-Runs env node own slices spec) (
            Ensures-weaken (λ w h. SetsCondition-none h.claim.name h.claim.namespace _ w h.patch)
              (λ _ _. tt) (notification-Ensures env named node own slices spec))))
        λ kept.
          then-Keeps _ _
            (wrap-Keeps "failed to reschedule notification" _ (
              Keeps-of env only _
                (reschedule_notification-Runs env slices spec.label_prefix
                  settings.device_no_allocation kept)
                (Ensures-weaken (λ w h. Notifies-none w h.1) (λ _ _. tt)
                  (reschedule_notification-Ensures env named ranges settings slices spec node
                    kept))))
            λ notified.
              then-Keeps _ _
                (wrap-Keeps "failed to handle devices" _
                  (handle_devices-Keeps env named only settings slices spec distinct node notified))
                λ _. wrap-Keeps "failed to update node label" _ (
                  Keeps-of env only _ (update_node_label-Runs env node spec) (
                    Ensures-weaken (λ w (qs, rs, h) model node_name. rw h.written refl) (λ _ _. tt)
                      (update_node_label-Ensures env named ranges settings slices spec node)))

  module _ (readable : ListsReadable env)
      (distinct : (s : env.State)
        → OnOk
            (λ (spec : ComposableDraSpec). DistinctModels spec.device_infos)
            (get_config_map_info env s).result) where
    pub reconcile-Keeps : Keeps (HasAtMostOne env only) (reconcile env settings)
    unfolding reconcile handle_nodes
    reconcile-Keeps =
        >>=-Keeps {Q = λ (c : Collected). DistinctModels c.spec.device_infos} (collect_info env) _
          (Keeps-of env only _ (collect_info-Runs env readable)
            (collect_info-Ensures env named ranges settings))
          (collect_info_spec-Ensures env named ranges settings {P = CreatesNothing}
            (λ spec. DistinctModels spec.device_infos)
            (record {
              sends = (get_config_map_info-Ensures env).sends;
              returns = distinct;
            })).returns
          λ c d.
            then-Keeps _ _
              (Keeps-of env only _
                (update_composable_resource_last_used_time-Runs env c.slices c.spec.label_prefix)
                (Ensures-weaken (λ w h model node_name. rw h.written refl) (λ _ _. tt)
                  (update-Ensures env c.slices c.spec.label_prefix)))
              λ _.
                then-Keeps _ _
                  (for_each-Keeps c.nodes (handle_node env settings c.claims c.slices c.spec)
                    λ node. handle_node-Keeps c.claims c.slices c.spec node d)
                  λ _. pure-Keeps settings.scan_interval

-- What the requests of a cluster go through: other actors delete requests and change their sizes,
-- and the controller reconciles, each time with its settings at that time.
pub data Step (env : Environment) (only : OnlyCreator env) : env.State → env.State → Type 0 where
  others :
      {s t : env.State}
      → ((model node_name : Text)
          → requests_for model node_name (only.stored t)
            ≤ requests_for model node_name (only.stored s))
      → Step env only s t
  reconciles :
      {s t : env.State} (settings : Settings)
      → (reconcile env settings s).state ≡ t
      → Step env only s t

pub data Reach (env : Environment) (only : OnlyCreator env) (s : env.State)
    : env.State → Type 0 where
  here : Reach env only s s
  next : {t u : env.State} → Reach env only s t → Step env only t u → Reach env only s u
