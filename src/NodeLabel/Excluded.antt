-- ===== src/NodeLabel/Excluded.antt =====
-- Which indexes UpdateNodeLabel rules out, as a test on the requests, the resources and the limits.
use dynamic_device_scaler.Base.{
  pos, ltb_ℤ, ℤ, Text, Bool, false, ◌&&◌, ◌||◌, List, [], ◌∷◌, ◌++◌, ◌≡◌, refl, ap, ◌∙◌, any,
  contains, Eq, ◌==◌, ==_iff, text_eq, int_eq, Bool-cases, inl, inr, arith,
}
use dynamic_device_scaler.Types.{DeviceInfo, ComposableDraSpec, ModelConstraints, NodeInfo}
use dynamic_device_scaler.Kube.{ComposabilityRequest, ComposableResource, is_online}
use dynamic_device_scaler.NodeLabel.{
  add_new, requests_device, holds_device, requested_models, online_models, installed_devices,
  excluded_by_model, excluded_by_models, indexes_of_device, is_barred, excluded_by_limits,
  not_coexist_ids,
}

pub or_assoc : (a b c : Bool) → ((a || b) || c) ≡ (a || (b || c))
or_assoc a b c = ground arith

and-or : (a b c : Bool) → ((a && c) || (b && c)) ≡ ((a || b) && c)
and-or a b c = ground arith

pub contains-append :
    {A : Type 0} ⦃e : Eq A⦄ (xs ys : List A) (a : A)
    → contains (xs ++ ys) a ≡ (contains xs a || contains ys a)
contains-append [] ys a = refl
contains-append (x ∷ xs) ys a = ground (arith, contains-append xs ys a)

module _ {A : Type 0} where
  pub any-cong : (p q : A → Bool) (xs : List A) → ((x : A) → p x ≡ q x) → any p xs ≡ any q xs
  any-cong p q [] f = refl
  any-cong p q (x ∷ xs) f = rw (f x, any-cong p q xs f)

  any-false : (xs : List A) → any (λ _. false) xs ≡ false
  any-false [] = refl
  any-false (x ∷ xs) = any-false xs

  any-or : (p q : A → Bool) (xs : List A) → any (λ x. p x || q x) xs ≡ (any p xs || any q xs)
  any-or p q [] = refl
  any-or p q (x ∷ xs) = ground (arith, any-or p q xs)

  -- A test over pairs, with the two loops exchanged.
  any-swap :
      (key : A → Text) (q : A → Bool) (ms : List Text) (xs : List A)
      → any (λ m. any (λ x. m == key x && q x) xs) ms ≡ any (λ x. contains ms (key x) && q x) xs
  any-swap key q [] xs = rw (any-false xs)
  any-swap key q (m ∷ ms) xs =
      rw
        (
          any-swap key q ms xs,
          ← any-or (λ x. m == key x && q x) (λ x. contains ms (key x) && q x) xs,
        )
        (any-cong (λ x. (m == key x && q x) || (contains ms (key x) && q x)) _ xs
          λ x. and-or (m == key x) (contains ms (key x)) (q x))

contains-add_new :
    (x m : Text) (xs : List Text) → contains (add_new x xs) m ≡ (contains xs m || x == m)
contains-add_new x m xs = elim (Bool-cases (contains xs x)) [
  | inl here ↦ rw here (elim (Bool-cases (x == m)) [
    | inl same ↦ rw (same, ← (==_iff x m).0 same, here)
    | inr other ↦ rw other (ground arith)
  ])
  | inr gone ↦ rw gone (contains-append xs (x ∷ []) m ∙ (ground arith))
]

contains-requested_models :
    (node_name : Text) (crs : List ComposabilityRequest) (xs : List Text) (m : Text)
    → contains (requested_models node_name crs xs) m
      ≡ (contains xs m || any (λ cr. requests_device node_name cr && cr.resource.model == m) crs)
unfolding requested_models
contains-requested_models node_name [] xs m = ground arith
contains-requested_models node_name (cr ∷ crs) xs m =
    elim (Bool-cases (requests_device node_name cr)) [
      | inl e ↦
          rw
            (
              e,
              contains-requested_models node_name crs (add_new cr.resource.model xs) m,
              contains-add_new cr.resource.model m xs,
            )
            (or_assoc (contains xs m) (cr.resource.model == m) _)
      | inr e ↦ rw (e, contains-requested_models node_name crs xs m)
    ]

contains-excluded_by_model :
    (m : Text) (ds : List DeviceInfo) (ids : List ℤ) (i : ℤ)
    → contains (excluded_by_model m ds ids) i
      ≡ (contains ids i || any (λ d. m == d.cdi_model_name && contains d.cannot_coexist_with i) ds)
unfolding excluded_by_model
contains-excluded_by_model m [] ids i = ground arith
contains-excluded_by_model m (d ∷ ds) ids i = elim (Bool-cases (m == d.cdi_model_name)) [
  | inl e ↦
      rw
        (
          e,
          contains-excluded_by_model m ds (ids ++ d.cannot_coexist_with) i,
          contains-append ids d.cannot_coexist_with i,
        )
        (or_assoc (contains ids i) (contains d.cannot_coexist_with i) _)
  | inr e ↦ rw (e, contains-excluded_by_model m ds ids i)
]

contains-online_models :
    (node_name : Text) (rs : List ComposableResource) (xs : List Text) (m : Text)
    → contains (online_models node_name rs xs) m
      ≡ (contains xs m || any (λ r. holds_device node_name r && r.model == m) rs)
unfolding online_models
contains-online_models node_name [] xs m = ground arith
contains-online_models node_name (r ∷ rs) xs m = elim (Bool-cases (holds_device node_name r)) [
  | inl e ↦
      rw
        (
          e,
          contains-online_models node_name rs (add_new r.model xs) m,
          contains-add_new r.model m xs,
        )
        (or_assoc (contains xs m) (r.model == m) _)
  | inr e ↦ rw (e, contains-online_models node_name rs xs m)
]

contains-excluded_by_models :
    (ms : List Text) (ds : List DeviceInfo) (ids : List ℤ) (i : ℤ)
    → contains (excluded_by_models ms ds ids) i ≡ (
        contains ids i
        || any (λ m. any (λ d. m == d.cdi_model_name && contains d.cannot_coexist_with i) ds) ms)
unfolding excluded_by_models
contains-excluded_by_models [] ds ids i = ground arith
contains-excluded_by_models (m ∷ ms) ds ids i =
    rw
      (
        contains-excluded_by_models ms ds (excluded_by_model m ds ids) i,
        contains-excluded_by_model m ds ids i,
      )
      (or_assoc (contains ids i) _ _)

contains-indexes_of_device :
    (name : Text) (ds : List DeviceInfo) (ids : List ℤ) (i : ℤ)
    → contains (indexes_of_device name ds ids) i
      ≡ (contains ids i || any (λ d. name == d.k8s_device_name && d.index == i) ds)
unfolding indexes_of_device
contains-indexes_of_device name [] ids i = ground arith
contains-indexes_of_device name (d ∷ ds) ids i = elim (Bool-cases (name == d.k8s_device_name)) [
  | inl e ↦
      rw
        (
          e,
          contains-indexes_of_device name ds (ids ++ d.index ∷ []) i,
          contains-append ids (d.index ∷ []) i,
        )
        (ground arith)
  | inr e ↦ rw (e, contains-indexes_of_device name ds ids i)
]

contains-excluded_by_limits :
    (cs : List ModelConstraints) (ds : List DeviceInfo) (ids : List ℤ) (i : ℤ)
    → contains (excluded_by_limits cs ds ids) i ≡ (
        contains ids i
        || any
            (λ c. is_barred c && any (λ d. c.device_name == d.k8s_device_name && d.index == i) ds)
            cs)
unfolding excluded_by_limits
contains-excluded_by_limits [] ds ids i = ground arith
contains-excluded_by_limits (c ∷ cs) ds ids i = elim (Bool-cases (is_barred c)) [
  | inl e ↦
      rw
        (
          e,
          contains-excluded_by_limits cs ds (indexes_of_device c.device_name ds ids) i,
          contains-indexes_of_device c.device_name ds ids i,
        )
        (or_assoc (contains ids i) _ _)
  | inr e ↦ rw (e, contains-excluded_by_limits cs ds ids i)
]

module _ (requests : List ComposabilityRequest) (resources : List ComposableResource)
    (node : NodeInfo) (spec : ComposableDraSpec) where
  -- The node has a device of the model online, or one is requested for it.
  abbrev pub is_installed : Text → Bool
  is_installed m =
      any
        (λ cr.
          (cr.resource.target_node == node.name && ltb_ℤ (pos 0) cr.resource.size)
          && cr.resource.model == m)
        requests
      || any (λ r. (r.target_node == node.name && is_online r.state) && r.model == m) resources

  -- The index is on the list of an installed model, or its device has a maximum of 0.
  abbrev pub is_ruled_out : ℤ → Bool
  is_ruled_out i =
      any (λ d. is_installed d.cdi_model_name && contains d.cannot_coexist_with i) spec.device_infos
      || any
          (λ c.
            (c.max_device_set && c.max_device == pos 0)
            && any (λ d. c.device_name == d.k8s_device_name && d.index == i) spec.device_infos)
          node.models

  contains-installed_devices :
      (m : Text) → contains (installed_devices node.name requests resources) m ≡ is_installed m
  unfolding installed_devices
  contains-installed_devices m = rw (
    contains-online_models node.name resources (requested_models node.name requests []) m,
    contains-requested_models node.name requests [] m,
  )

  pub contains-not_coexist_ids :
      (i : ℤ)
      → contains (not_coexist_ids (installed_devices node.name requests resources) node spec) i
        ≡ is_ruled_out i
  unfolding not_coexist_ids
  contains-not_coexist_ids i =
      let installed = installed_devices node.name requests resources in
      rw (
        contains-excluded_by_limits node.models spec.device_infos
            (excluded_by_models installed spec.device_infos []) i,
        contains-excluded_by_models installed spec.device_infos [] i,
        any-swap (λ d. d.cdi_model_name) (λ d. contains d.cannot_coexist_with i) installed
            spec.device_infos,
        any-cong (λ d. contains installed d.cdi_model_name && contains d.cannot_coexist_with i)
            (λ d. is_installed d.cdi_model_name && contains d.cannot_coexist_with i)
            spec.device_infos
            λ d.
              ap (λ b. b && contains d.cannot_coexist_with i)
                (contains-installed_devices d.cdi_model_name),
      )
