-- ===== src/Reschedule/Notification/Matching.antt =====
-- The matching of the resources of a node with the devices of a claim.
use native.Mathlib.Nat.{le_trans}
use dynamic_device_scaler.Base.{
  ℕ, suc, ◌≤◌, leb, Text, Bool, true, false, Option, none, some, List, [], ◌∷◌, map, ◌≡◌, refl, ap,
  subst, In, All, count_if, contains, Bool-cases, inl, inr, ◌==◌, ==_iff, text_eq, arith,
}
use dynamic_device_scaler.Types.{Duration, ResourceSliceInfo}
use dynamic_device_scaler.Kube.{ComposableResource, Write, is_online}
use dynamic_device_scaler.Effects.{
  Environment, Ensures, Always, Ensures-weaken, pure-Ensures, wrap-Ensures, forget_error-Ensures,
  >>=-Ensures, if-Ensures, test-Ensures, branch-Ensures, option-Ensures,
}
use dynamic_device_scaler.LastUsed.Age.{is_last_used_over_threshold-Ensures}
use dynamic_device_scaler.Usage.{is_device_resource_slice_red}
use dynamic_device_scaler.Usage.Sends.{is_device_used_by_pod-Ensures}
use dynamic_device_scaler.Scaling.{is_nil}
use dynamic_device_scaler.Reschedule.{count_at}
use dynamic_device_scaler.Reschedule.Notification.{
  is_candidate, free_at, is_free, match_resources, match_models,
}

abbrev pub OnSome : {A : Type 0} → (A → Type 0) → Option A → Type 0
OnSome Q none = Unit
OnSome Q (some a) = Q a

map_OnSome :
    {A : Type 0} (Q R : A → Type 0)
    → ((a : A) → Q a → R a)
    → (o : Option A) → OnSome Q o
    → OnSome R o
map_OnSome Q R f none h = h
map_OnSome Q R f (some a) h = f a h

-- No text stands twice in the list.
abbrev pub Distinct : List Text → Type 0
Distinct [] = Unit
Distinct (x ∷ xs) = (contains xs x ≡ false) × Distinct xs

abbrev pub name_of : ComposableResource → Text
name_of r = r.name

-- A resource for the model.
abbrev pub is_of : Text → ComposableResource → Bool
is_of model r = r.model == model

-- A resource that a device of a claim for the node can be given.
pub record IsUsable (resources : List ComposableResource) (slices : List ResourceSliceInfo)
    (node_name : Text) (r : ComposableResource) : Type 0 where
  pub listed : In r resources
  pub on_node : r.target_node ≡ node_name
  pub online : is_online r.state ≡ true
  pub stays : is_nil r.deletion_timestamp ≡ true
  pub slice : ResourceSliceInfo
  pub device : Text
  pub in_slice : is_device_resource_slice_red r.device_id slices ≡ some (slice, device)

-- Usable resources, each once, and their names.
pub record Takes (resources : List ComposableResource) (slices : List ResourceSliceInfo)
    (node_name : Text) (matched : List Text) (taken : List ComposableResource) : Type 0 where
  pub names : matched ≡ map name_of taken
  pub distinct : Distinct matched
  pub each : All (IsUsable resources slices node_name) taken

-- What a match comes to, from resources that were taken before: no model has fewer.
pub record Grows (resources : List ComposableResource) (slices : List ResourceSliceInfo)
    (node_name : Text) (before : List ComposableResource) (matched : List Text) : Type 0 where
  pub taken : List ComposableResource
  pub takes : Takes resources slices node_name matched taken
  pub kept : (model : Text) → count_if (is_of model) before ≤ count_if (is_of model) taken

abbrev IsRed : List ResourceSliceInfo → ComposableResource → Type 0
IsRed slices r =
    (found : ResourceSliceInfo × Text) × (is_device_resource_slice_red r.device_id slices
      ≡ some found)

module _ (resources : List ComposableResource) (slices : List ResourceSliceInfo)
    (node_name : Text) where
  -- One more resource.
  take :
      (model : Text) (matched : List Text) (taken : List ComposableResource)
      (r : ComposableResource)
      → Takes resources slices node_name matched taken
      → In r resources
      → is_candidate model node_name matched r ≡ true
      → IsRed slices r
      → Takes resources slices node_name (r.name ∷ matched) (r ∷ taken)
  take model matched taken r h m c ((slice, device), red) = record {
    names = ap (λ ns. r.name ∷ ns) h.names;
    distinct = (ground arith, h.distinct);
    each = (
      record {
        listed = m;
        on_node = (==_iff r.target_node node_name).0 (ground arith);
        online = ground arith;
        stays = ground arith;
        slice = slice;
        device = device;
        in_slice = red;
      },
      h.each,
    );
  }

module _ (env : Environment) (slices : List ResourceSliceInfo) (label_prefix : Text)
    (threshold : Duration) (resources : List ComposableResource) (node_name : Text)
    {P : Write → Type 0} where
  free_at-Ensures :
      (r : ComposableResource) (red : Option (ResourceSliceInfo × Text))
      → is_device_resource_slice_red r.device_id slices ≡ red
      → Ensures P
          (λ free. free ≡ true → IsRed slices r)
          (free_at env slices label_prefix threshold r red)
  unfolding free_at
  free_at-Ensures r none e = pure-Ensures false (λ h. cc)
  free_at-Ensures r (some (slice, device)) e =
      >>=-Ensures {Q = Always} _ _
        (wrap-Ensures _ _ (is_device_used_by_pod-Ensures env device slice))
        λ used _. if-Ensures used _ _ (pure-Ensures false (λ h. cc)) (
          forget_error-Ensures false _ (λ _. ((slice, device), e))
            (Ensures-weaken (λ w h. h) (λ b _ _. ((slice, device), e))
              (is_last_used_over_threshold-Ensures env r label_prefix threshold false)))

  is_free-Ensures :
      (model : Text) (matched : List Text) (r : ComposableResource)
      → Ensures P
          (λ free. free ≡ true → (is_candidate model node_name matched r ≡ true) × IsRed slices r)
          (is_free env slices label_prefix threshold model node_name matched r)
  unfolding is_free
  is_free-Ensures model matched r = elim (Bool-cases (is_candidate model node_name matched r)) [
    | inl e ↦ rw e (
        Ensures-weaken (λ w h. h) (λ b h t. (refl, h t))
          (free_at-Ensures r (is_device_resource_slice_red r.device_id slices) refl))
    | inr e ↦ rw e (pure-Ensures false (λ h. cc))
  ]

  match_resources-Ensures :
      (model : Text) (count : ℕ) (matched : List Text) (matched_count : ℕ)
      (rs taken : List ComposableResource)
      → ((r : ComposableResource) → In r rs → In r resources)
      → Takes resources slices node_name matched taken
      → matched_count ≤ count_if (is_of model) taken
      → Ensures P
          (OnSome λ matched'.
            (g : Grows resources slices node_name taken matched') × (count
              ≤ count_if (is_of model) g.taken))
          (match_resources env slices label_prefix threshold model count node_name matched
            matched_count rs)
  unfolding match_resources
  match_resources-Ensures model count matched matched_count [] taken sub h n = pure-Ensures none tt
  match_resources-Ensures model count matched matched_count (r ∷ rs) taken sub h n =
      >>=-Ensures (is_free env slices label_prefix threshold model node_name matched r) _
        (is_free-Ensures model matched r)
        λ free found.
          test-Ensures free _ _
            (λ e.
              let (c, red) = found e in
              let next =
                take resources slices node_name model matched taken r h (sub r (inl refl)) c red in
              let same : is_of model r ≡ true = ground arith in
              let more : suc matched_count ≤ count_if (is_of model) (r ∷ taken) =
                rw same (omega arith) in
              let kept : (m : Text) → count_if (is_of m) taken ≤ count_if (is_of m) (r ∷ taken) =
                λ m. (omega arith) in
              branch-Ensures (leb count (suc matched_count)) _ _
                (λ e.
                  pure-Ensures _
                    (record { taken = r ∷ taken; takes = next; kept = kept }, (ground arith)))
                λ _.
                  Ensures-weaken (λ w p. p)
                    (map_OnSome _ _ λ m (g, enough). (
                      record {
                        taken = g.taken;
                        takes = g.takes;
                        kept = λ m. le_trans (kept m) (g.kept m);
                      },
                      enough,
                    ))
                    (match_resources-Ensures model count (r.name ∷ matched) (suc matched_count) rs
                      (r ∷ taken) (λ x m. sub x (inr m)) next more))
            λ _.
              match_resources-Ensures model count matched matched_count rs taken
                (λ x m. sub x (inr m)) h n

  pub match_models-Ensures :
      (counts : List (Text × ℕ)) (matched models : List Text) (taken : List ComposableResource)
      → Takes resources slices node_name matched taken
      → Ensures P
          (OnSome λ matched'.
            (g : Grows resources slices node_name taken matched') × All
              (λ model. count_at model counts ≤ count_if (is_of model) g.taken)
              models)
          (match_models env slices label_prefix threshold counts node_name resources matched models)
  unfolding match_models
  match_models-Ensures counts matched [] taken h =
      pure-Ensures _ (record { taken = taken; takes = h; kept = λ m. (omega arith) }, tt)
  match_models-Ensures counts matched (model ∷ models) taken h =
      >>=-Ensures
        (match_resources env slices label_prefix threshold model (count_at model counts) node_name
          matched 0 resources)
        _
        (match_resources-Ensures model (count_at model counts) matched 0 resources taken (λ r m. m)
          h (omega arith))
        λ found q.
          option-Ensures found _ _ (λ _. pure-Ensures none tt)
            λ matched' e.
              let (g, enough) =
                subst
                  (OnSome λ matched'.
                    (g : Grows resources slices node_name taken matched') × (count_at model counts
                      ≤ count_if (is_of model) g.taken))
                  e q in
              Ensures-weaken (λ w p. p)
                (map_OnSome _ _ λ m (g', rest). (
                  record {
                    taken = g'.taken;
                    takes = g'.takes;
                    kept = λ m. le_trans (g.kept m) (g'.kept m);
                  },
                  (le_trans enough (g'.kept model), rest),
                ))
                (match_models-Ensures counts matched' models g.taken g.takes)
