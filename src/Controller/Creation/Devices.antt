-- ===== src/Controller/Creation/Devices.antt =====
-- handleDevices creates at most one request for a model on the node, and none where one is listed.
use dynamic_device_scaler.Base.{
  ℕ, ◌+◌, ◌≤◌, ℤ, pos, ltb_ℤ, ◌≡◌, refl, subst, Text, Bool, true, false, ◌&&◌, ◌==◌, ==_iff,
  text_eq, Option, none, some, List, [], ◌∷◌, any, All-map_prop, find_first, count_if, bytes,
  Bool-cases, inl, inr, if◌then◌else◌, arith,
}
use dynamic_device_scaler.Types.{
  DeviceInfo, ComposableDraSpec, NodeInfo, ResourceClaimInfo, ResourceSliceInfo,
}
use dynamic_device_scaler.Kube.{ComposabilityRequest, Write, create_request}
use dynamic_device_scaler.Effects.{
  ok, err, panic, Result, Action, Environment, NamesAgree, wrap-Ensures, wrap, continue, ◌>>=◌,
  for_each,
}
use dynamic_device_scaler.Models.{get_model_limit, get_driver_type}
use dynamic_device_scaler.Usage.{get_configured_device_count}
use dynamic_device_scaler.Usage.Sends.{get_configured_device_count-Ensures}
use dynamic_device_scaler.Scaling.{new_request, dynamic_attach, create_new_composability_request_cr}
use dynamic_device_scaler.Controller.{
  Settings, is_request_for, at_least, scale_request, handle_device,
}
use dynamic_device_scaler.Controller.Sizes.{ScalesTo, grow, shrink, create, scale_request-Ensures}
use dynamic_device_scaler.Controller.Creation.{
  creations, created, created-append, CreatesNothing, created_none,
}

any-of_find_none :
    (p : ComposabilityRequest → Bool) (xs : List ComposabilityRequest)
    → find_first p xs ≡ none
    → any p xs ≡ false
any-of_find_none p [] h = refl
any-of_find_none p (x ∷ xs) h = ground (arith, any-of_find_none p xs)

abbrev is_info_of : Text → DeviceInfo → Bool
is_info_of model d = d.cdi_model_name == model

-- No two device infos have the model.
abbrev pub DistinctModels : List DeviceInfo → Type 0
DistinctModels infos = (model : Text) → count_if (is_info_of model) infos ≤ 1

module _ (model node_name : Text) where
  module _ {S A B : Type 0} where
    created-continue :
        (r : Result A) (s : S) (w : List Write) (f : A → Action S B) (k n : ℕ)
        → created model node_name w ≤ k
        → ((a : A) (t : S) → created model node_name (f a t).writes ≤ n)
        → created model node_name (continue r s w f).writes ≤ k + n
    created-continue (ok a) s w f k n hw hf =
        omega (arith, created-append model node_name w (f a s).writes, hf a s)
    created-continue (err e) s w f k n hw hf = omega arith
    created-continue (panic m) s w f k n hw hf = omega arith

    created->>= :
        (m : Action S A) (f : A → Action S B) (k n : ℕ) (s : S)
        → created model node_name (m s).writes ≤ k
        → ((a : A) (t : S) → created model node_name (f a t).writes ≤ n)
        → created model node_name ((m >>= f) s).writes ≤ k + n
    created->>= m f k n s hm hf = created-continue (m s).result (m s).state _ f k n hm hf

  created-if :
      {S A : Type 0} (b : Bool) (x y : Action S A) (n : ℕ) (s : S)
      → created model node_name (x s).writes ≤ n
      → created model node_name (y s).writes ≤ n
      → created model node_name ((if b then x else y) s).writes ≤ n
  created-if true x y n s hx hy = hx
  created-if false x y n s hx hy = hy

  module _ (env : Environment) (named : NamesAgree env) (settings : Settings)
      (spec : ComposableDraSpec) (node : NodeInfo) (requests : List ComposabilityRequest) where
    abbrev is_listed : Bool
    is_listed = any (is_request_for model node_name) requests

    -- What one device info may create.
    abbrev share : DeviceInfo → ℕ
    share d = if is_listed then 0 else if is_info_of model d && node.name == node_name then 1 else 0

    scales_listed :
        (device : DeviceInfo) (target : ℤ) (cr : ComposabilityRequest)
        → find_first (is_request_for device.cdi_model_name node.name) requests ≡ some cr
        → (w : Write) → ScalesTo node device requests target w
        → CreatesNothing w
    scales_listed device target cr found w (grow cr' f l e) m n = rw e refl
    scales_listed device target cr found w (shrink cr' f h) m n = rw h.written refl
    scales_listed device target cr found w (create f l e) m n = absurd (cc (f, found))

    creations-attach :
        (device : DeviceInfo) (target : ℤ) (s : env.State)
        → find_first (is_request_for device.cdi_model_name node.name) requests ≡ none
        → creations model node_name (
            create_request (bytes "composability-") (
              new_request target
                (get_driver_type device.driver_name)
                device.cdi_model_name
                node.name))
          ≤ share device
    creations-attach device target s none_listed =
        elim (Bool-cases (is_info_of model device && node.name == node_name)) [
          | inl e ↦
              let same : device.cdi_model_name ≡ model =
                ground (arith, ==_iff device.cdi_model_name model) in
              let here : node.name ≡ node_name = ground (arith, ==_iff node.name node_name) in
              let absent : is_listed ≡ false =
                subst (λ (x : Text). any (is_request_for x node_name) requests ≡ false) same
                  (subst
                    (λ (y : Text). any (is_request_for device.cdi_model_name y) requests ≡ false)
                    here (any-of_find_none _ requests none_listed)) in
              rw (e, absent) (omega arith)
          | inr e ↦ rw e (omega arith)
        ]

    created-scale_request :
        (device : DeviceInfo) (target : ℤ) (o : Option ComposabilityRequest) (s : env.State)
        → find_first (is_request_for device.cdi_model_name node.name) requests ≡ o
        → created model node_name (scale_request env settings spec node device target o s).writes
          ≤ share device
    unfolding scale_request dynamic_attach create_new_composability_request_cr
    created-scale_request device target (some cr) s found =
        let ws = (scale_request env settings spec node device target (some cr) s).writes in
        let scales =
          scale_request-Ensures env named settings spec node requests device target (some cr)
            found in
        omega (
          arith,
          created_none model node_name ws
              (All-map_prop ws (scales_listed device target cr found) (scales.sends s)),
        )
    created-scale_request device target none s found = elim (Bool-cases (ltb_ℤ (pos 0) target)) [
      | inl e ↦ rw e (omega (arith, creations-attach device target s found))
      | inr e ↦ rw e (omega arith)
    ]

    created-handle_device :
        (claims : List ResourceClaimInfo) (slices : List ResourceSliceInfo) (device : DeviceInfo)
        (s : env.State)
        → created model node_name
            (handle_device env settings spec node claims slices requests device s).writes
          ≤ 0 + share device
    unfolding handle_device
    created-handle_device claims slices device s =
        let count =
          wrap-Ensures {P = CreatesNothing} "failed to get configured device count" _ (
            get_configured_device_count-Ensures env device.cdi_model_name node.name claims
              slices) in
        let none_made = created_none model node_name _ (count.sends s) in
        created->>=
          (wrap "failed to get configured device count"
            (get_configured_device_count env device.cdi_model_name node.name claims slices))
          _ 0 (share device) s (omega (arith, none_made))
          λ n t.
            let limits = get_model_limit node device.cdi_model_name in
            created-if (ltb_ℤ limits.0 (pos n)) _ _ (share device) t (omega arith) (
              created-scale_request device (at_least limits.1 (pos n))
                (find_first (is_request_for device.cdi_model_name node.name) requests) t refl)

    -- What the loop over the device infos creates.
    abbrev shares : List DeviceInfo → ℕ
    shares [] = 0
    shares (d ∷ ds) = share d + shares ds

    created-handle_all_le :
        (claims : List ResourceClaimInfo) (slices : List ResourceSliceInfo)
        (devices : List DeviceInfo) (s : env.State)
        → created model node_name
            (for_each devices
              (handle_device env settings spec node claims slices requests)
              s).writes
          ≤ shares devices
    unfolding for_each
    created-handle_all_le claims slices [] s = omega arith
    created-handle_all_le claims slices (d ∷ ds) s =
        let body = handle_device env settings spec node claims slices requests in
        created->>= (body d) (λ _. for_each ds body) (share d) (shares ds) s
          (omega (arith, created-handle_device claims slices d s))
          λ _ t. created-handle_all_le claims slices ds t

    shares-le : (devices : List DeviceInfo) → shares devices ≤ count_if (is_info_of model) devices
    shares-le [] = omega arith
    shares-le (d ∷ ds) = ground (arith, shares-le ds)

    shares_listed : (devices : List DeviceInfo) → is_listed ≡ true → shares devices ≡ 0
    shares_listed [] h = refl
    shares_listed (d ∷ ds) h = rw h (omega (arith, shares_listed ds h))

    -- At most one request for the model, and none where one is listed.
    pub created-handle_all :
        (claims : List ResourceClaimInfo) (slices : List ResourceSliceInfo) (s : env.State)
        → DistinctModels spec.device_infos
        → created model node_name
            (for_each spec.device_infos
              (handle_device env settings spec node claims slices requests)
              s).writes
          ≤ (if is_listed then 0 else 1)
    created-handle_all claims slices s distinct =
        let all = created-handle_all_le claims slices spec.device_infos s in
        elim (Bool-cases is_listed) [
          | inl e ↦ rw e (omega (arith, all, shares_listed spec.device_infos e))
          | inr e ↦ rw e (omega (arith, all, shares-le spec.device_infos, distinct model))
        ]
