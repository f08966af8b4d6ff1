-- ===== src/Reschedule/Notification/Serving.antt =====
-- The loop of RescheduleNotification: what it sends and how it changes the claims.
use dynamic_device_scaler.Base.{
  ℕ, zero, suc, ◌≤◌, Text, true, not, some, List, [], map, any, ◌≡◌, refl, sym, ap, ◌∙◌, subst, In,
  All, All-In, count_if, get_elem?, set, inr, ◌==◌, text_eq, arith,
}
use mathlib.Core.Option.{some-injective}
use native.Mathlib.Decide.{dec_lt}
use dynamic_device_scaler.Types.{
  Duration, preparing, reschedule, state_eq, ResourceClaimInfo, ResourceSliceInfo,
}
use dynamic_device_scaler.Kube.{ComposableResource, patch_annotation}
use dynamic_device_scaler.Effects.{
  Environment, NamesAgree, RangesOver, pure, observe, ◌>>=◌, Ensures, Always, Ensures-weaken,
  pure-Ensures, wrap-Ensures, observe-Ensures, for_each-Ensures, >>=-Ensures, branch-Ensures,
  option-Ensures,
}
use dynamic_device_scaler.LastUsed.{last_used_label}
use dynamic_device_scaler.Patch.Annotations.{patch_composable_resource_annotation-Ensures}
use dynamic_device_scaler.Reschedule.{
  with_state, count_at, keys_of, get_unique_models_with_counts, fabric_device_reschedule,
}
use dynamic_device_scaler.Reschedule.States.{
  all_preparing, AllBecome, AllBecome-set_of, In-of_get, set_devices_state-Ensures,
  at_claim-Ensures,
}
use dynamic_device_scaler.Reschedule.Notification.{
  match_models, touch_all, touch_matched, reschedule_claim, notify_claim, notify_loop,
}
use dynamic_device_scaler.Reschedule.Notification.Counts.{
  get_unique_models_with_counts_lem, In-keys_of,
}
use dynamic_device_scaler.Reschedule.Notification.Matching.{
  OnSome, Distinct, name_of, is_of, Grows, match_models-Ensures,
}
use dynamic_device_scaler.Reschedule.Notification.Served.{
  Serves, Notifies, told, touched, In-map_name, all_preparing_of, get_elem?-set_other, at,
}

module _ (env : Environment) (named : NamesAgree env) (ranges : RangesOver env)
    (slices : List ResourceSliceInfo) (prefix : Text) (threshold : Duration)
    (resources : List ComposableResource) (sorted : List ResourceClaimInfo) where
  -- The claims when the loop stands at an index: from there on they are the sorted ones.
  pub record Reached (k : ℕ) (claims : List ResourceClaimInfo) : Type 0 where
    pub become : AllBecome reschedule sorted claims
    pub ahead : (i : ℕ) → k ≤ i → get_elem? claims i ≡ get_elem? sorted i

  touch_matched-Ensures :
      (rc : ResourceClaimInfo) (taken : List ComposableResource)
      → In rc sorted
      → Serves resources slices rc taken
      → Ensures
          (Notifies resources slices prefix sorted)
          Always
          (touch_matched env slices prefix threshold (map name_of taken))
  unfolding touch_matched touch_all
  touch_matched-Ensures rc taken m serves =
      >>=-Ensures {Q = Always} (observe env.now)
        (λ now.
          observe (env.range_keys (map name_of taken))
          >>= touch_all env slices prefix threshold now)
        (observe-Ensures env.now (λ s. tt))
        λ now _.
          >>=-Ensures {Q = λ names. (n : Text) → In n names → In n (map name_of taken)}
            (observe (env.range_keys (map name_of taken)))
            (touch_all env slices prefix threshold now)
            (observe-Ensures (env.range_keys (map name_of taken))
              (λ s n. ranges.only_keys (map name_of taken) s n))
            λ names only. for_each-Ensures names _ (
              All-In names λ name here.
                let (r, there, same) = In-map_name name taken (only name here) in
                wrap-Ensures _ _ (
                  Ensures-weaken
                    (λ w q. touched rc taken r (env.format_rfc3339 now) m serves there (
                      q
                      ∙ ap
                          (λ n.
                            patch_annotation n (last_used_label prefix) (env.format_rfc3339 now))
                          same))
                    (λ _ _. tt)
                    (patch_composable_resource_annotation-Ensures env name (last_used_label prefix)
                      (env.format_rfc3339 now))))

  reschedule_claim-Ensures :
      (rc : ResourceClaimInfo) (k : ℕ) (taken : List ComposableResource)
      (claims : List ResourceClaimInfo)
      → In rc sorted
      → Serves resources slices rc taken
      → Ensures
          (Notifies resources slices prefix sorted)
          (λ out. out ≡ set claims k (with_state reschedule rc))
          (reschedule_claim env slices prefix threshold rc k (map name_of taken) claims)
  unfolding reschedule_claim
  reschedule_claim-Ensures rc k taken claims m serves =
      >>=-Ensures _ _
        (wrap-Ensures _ _ (
          Ensures-weaken (λ w h. told rc taken m serves h) (λ _ e. e)
            (set_devices_state-Ensures env named rc reschedule fabric_device_reschedule)))
        λ rc' e.
          >>=-Ensures {Q = Always} (touch_matched env slices prefix threshold (map name_of taken)) _
            (touch_matched-Ensures rc taken m serves) λ _ _. pure-Ensures _ (ap (set claims k) e)

  can_serve :
      (rc : ResourceClaimInfo) (matched models : List Text)
      (g : Grows resources slices rc.node_name [] matched)
      → all_preparing rc ≡ true
      → ((key : Text) → In key (keys_of (get_unique_models_with_counts rc)) → In key models)
      → All
          (λ model.
            count_at model (get_unique_models_with_counts rc) ≤ count_if (is_of model) g.taken)
          models
      → Serves resources slices rc g.taken
  can_serve rc matched models g ready every enough = record {
    waits = ready;
    usable = g.takes.each;
    distinct = subst Distinct g.takes.names g.takes.distinct;
    enough = λ model.
        let counts = get_unique_models_with_counts rc in
        let same = get_unique_models_with_counts_lem model rc ready in
        elim (dec_lt 0 (count_at model counts)) [
          | yes counted ↦
              let bound =
                at (λ m. count_at m counts ≤ count_if (is_of m) g.taken) models model enough
                  (every model (In-keys_of model counts counted)) in
              omega arith
          | no more ↦ omega arith
        ];
  }

  Reached-set :
      (k : ℕ) (claims : List ResourceClaimInfo) (rc : ResourceClaimInfo)
      → Reached k claims
      → get_elem? claims k ≡ some rc
      → Reached (suc k) (set claims k (with_state reschedule rc))
  Reached-set k claims rc h e = record {
    become = AllBecome-set_of reschedule sorted claims k (with_state reschedule rc) h.become λ x p.
        inr (
          ap (with_state reschedule) (some-injective rc x (sym e ∙ (h.ahead k (omega arith) ∙ p))));
    ahead = λ i le.
        get_elem?-set_other claims k i (with_state reschedule rc) le ∙ h.ahead i (omega arith);
  }

  Reached-suc :
      (k : ℕ) (claims : List ResourceClaimInfo) → Reached k claims → Reached (suc k) claims
  Reached-suc k claims h = record { become = h.become; ahead = λ i le. h.ahead i (omega arith) }

  notify_claim-Ensures :
      (rc : ResourceClaimInfo) (k : ℕ) (claims : List ResourceClaimInfo)
      → Reached k claims
      → get_elem? claims k ≡ some rc
      → Ensures
          (Notifies resources slices prefix sorted)
          (Reached (suc k))
          (notify_claim env slices prefix threshold resources rc k claims)
  unfolding notify_claim
  notify_claim-Ensures rc k claims h e =
      let counts = get_unique_models_with_counts rc in
      let m = In-of_get sorted k (sym (h.ahead k (omega arith)) ∙ e) in
      branch-Ensures (any (λ d. not (d.state == preparing)) rc.devices) _ _
        (λ _. pure-Ensures claims (Reached-suc k claims h))
        λ ready.
          >>=-Ensures {Q = λ models. (key : Text) → In key (keys_of counts) → In key models}
            (observe (env.range_keys (keys_of counts))) _
            (observe-Ensures (env.range_keys (keys_of counts))
              (λ s key. ranges.every_key (keys_of counts) s key))
            λ models every.
              >>=-Ensures
                (match_models env slices prefix threshold counts rc.node_name resources [] models) _
                (match_models-Ensures env slices prefix threshold resources rc.node_name counts []
                  models [] (record { names = refl; distinct = tt; each = tt }))
                λ found q.
                  option-Ensures found _ _ (λ _. pure-Ensures claims (Reached-suc k claims h))
                    λ matched f.
                      let (g, enough) =
                        subst
                          (OnSome λ matched.
                            (g : Grows resources slices rc.node_name [] matched) × All
                              (λ model. count_at model counts ≤ count_if (is_of model) g.taken)
                              models)
                          f q in
                      let serves =
                        can_serve rc matched models g (all_preparing_of rc.devices ready) every
                          enough in
                      subst
                        (λ ns.
                          Ensures (Notifies resources slices prefix sorted) (Reached (suc k))
                            (reschedule_claim env slices prefix threshold rc k ns claims))
                        (sym g.takes.names)
                        (Ensures-weaken (λ w p. p)
                          (λ out o. subst (Reached (suc k)) (sym o) (Reached-set k claims rc h e))
                          (reschedule_claim-Ensures rc k g.taken claims m serves))

  pub notify_loop-Ensures :
      (n k : ℕ) (claims : List ResourceClaimInfo)
      → Reached k claims
      → Ensures
          (Notifies resources slices prefix sorted)
          (AllBecome reschedule sorted)
          (notify_loop env slices prefix threshold resources n k claims)
  unfolding notify_loop
  notify_loop-Ensures zero k claims h = pure-Ensures claims h.become
  notify_loop-Ensures (suc n) k claims h =
      at_claim-Ensures (get_elem? claims k) (pure claims) _ (λ _. pure-Ensures claims h.become)
        λ rc e.
          >>=-Ensures (notify_claim env slices prefix threshold resources rc k claims) _
            (notify_claim-Ensures rc k claims h e)
            λ claims' h'. notify_loop-Ensures n (suc k) claims' h'
