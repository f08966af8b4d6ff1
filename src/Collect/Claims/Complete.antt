-- ===== src/Collect/Claims/Complete.antt =====
-- GetResourceClaimInfo lists every claim that a controller waits for, once and in order.
use dynamic_device_scaler.Base.{
  ◌+◌, ◌≡◌, refl, subst, Text, Bool, true, false, not, ◌&&◌, Option, none, some, List, [], ◌∷◌, map,
  any, select, count_if, length, Bool-cases, inl, inr, arith,
}
use dynamic_device_scaler.Types.{ComposableDraSpec, ResourceClaimDevice, ResourceClaimInfo}
use dynamic_device_scaler.Kube.{DeviceResult, Allocation, ResourceSlice, ResourceClaim}
use dynamic_device_scaler.Effects.{ok}
use dynamic_device_scaler.Effects.Results.{result_bind, ok-injective, if_cases}
use dynamic_device_scaler.Collect.Slices.{is_empty, add_found}
use dynamic_device_scaler.Collect.Claims.{
  claim_devices, selected_node, info_of, allocated_info, resource_claim_infos,
}
use dynamic_device_scaler.Collect.Claims.Infos.{is_bound, claim_devices-DeviceOf}

abbrev has_bound : Option Allocation → Bool
has_bound none = false
has_bound (some a) = any is_bound a.results

-- Reserved, and allocated with a device that has binding conditions.
abbrev pub is_waiting : ResourceClaim → Bool
is_waiting rc = not (is_empty rc.reserved_for) && has_bound rc.allocation

abbrev pub name_of_claim : ResourceClaim → Text × Text
name_of_claim rc = (rc.namespace, rc.name)

abbrev pub name_of_info : ResourceClaimInfo → Text × Text
name_of_info info = (info.namespace, info.name)

-- What comes of a claim.
abbrev Comes : ResourceClaim → Bool → Option ResourceClaimInfo → Type 0
Comes rc waits none = waits ≡ false
Comes rc waits (some info) = (waits ≡ true) × (name_of_info info ≡ name_of_claim rc)

any-count_if :
    (p : DeviceResult → Bool) (xs : List DeviceResult) (ds : List ResourceClaimDevice)
    → length ds ≡ count_if p xs
    → any p xs ≡ not (is_empty ds)
any-count_if p [] [] h = refl
any-count_if p [] (d ∷ ds) h = absurd (omega (arith, h))
any-count_if p (x ∷ xs) ds h = elim (Bool-cases (p x)) [
  | inl e ↦ rw e (nonempty ds (rw e at h))
  | inr e ↦ rw e (any-count_if p xs ds (ground arith))
]
  where
    nonempty :
        (ds : List ResourceClaimDevice) → length ds ≡ 1 + count_if p xs → true ≡ not (is_empty ds)
    nonempty [] h = absurd (omega arith)
    nonempty (d ∷ ds) h = refl

module _ (spec : ComposableDraSpec) (slices : List ResourceSlice) where
  info_of-Comes :
      (rc : ResourceClaim) (allocation : Allocation) (devices : List ResourceClaimDevice)
      (found : Option ResourceClaimInfo)
      → info_of rc allocation devices ≡ ok found
      → Comes rc (not (is_empty devices)) found
  unfolding info_of
  info_of-Comes rc allocation [] found h = subst (Comes rc false) (ok-injective none found h) refl
  info_of-Comes rc allocation (d ∷ ds) found h =
      let (node_name, p, k) = result_bind (selected_node allocation.node_selector) _ h in
      subst (Comes rc true) (ok-injective _ found k) (refl, refl)

  allocated_info-Comes :
      (rc : ResourceClaim) (o : Option Allocation) (found : Option ResourceClaimInfo)
      → allocated_info spec slices rc o ≡ ok found
      → Comes rc (not (is_empty rc.reserved_for) && has_bound o) found
  unfolding allocated_info
  allocated_info-Comes rc none found h =
      subst (Comes rc (not (is_empty rc.reserved_for) && false)) (ok-injective none found h)
        (ground arith)
  allocated_info-Comes rc (some allocation) found h =
      elim (if_cases (is_empty rc.reserved_for) (ok none) _ h) [
        | inl (e, k) ↦ rw e (subst (Comes rc false) (ok-injective none found k) refl)
        | inr (e, k) ↦
            let (devices, c, k1) =
              result_bind (claim_devices spec slices rc.devices allocation.results) _ k in
            let counted =
              (claim_devices-DeviceOf spec slices rc.devices allocation.results devices c).1 in
            rw (e, any-count_if is_bound allocation.results devices counted)
              (info_of-Comes rc allocation devices found k1)
      ]

  add_found-names :
      (rc : ResourceClaim) (claims : List ResourceClaim) (waits : Bool)
      (found : Option ResourceClaimInfo) (rest : List ResourceClaimInfo)
      → is_waiting rc ≡ waits
      → Comes rc waits found
      → map name_of_info rest ≡ map name_of_claim (select is_waiting claims)
      → map name_of_info (add_found found rest)
        ≡ map name_of_claim (select is_waiting (rc ∷ claims))
  add_found-names rc claims waits none rest w c h = rw (w, c) h
  add_found-names rc claims waits (some info) rest w c h = rw (w, c.0) (rw (c.1, h))

  -- Where the claims are listed, they are exactly those that are reserved and allocated with a
  -- device that has binding conditions, each once and in the order of the server.
  pub resource_claim_infos-names :
      (claims : List ResourceClaim) (infos : List ResourceClaimInfo)
      → resource_claim_infos spec slices claims ≡ ok infos
      → map name_of_info infos ≡ map name_of_claim (select is_waiting claims)
  unfolding resource_claim_infos
  resource_claim_infos-names [] infos h =
      subst (λ (infos : List ResourceClaimInfo). map name_of_info infos ≡ [])
        (ok-injective [] infos h) refl
  resource_claim_infos-names (rc ∷ claims) infos h =
      let (found, p, k) = result_bind (allocated_info spec slices rc rc.allocation) _ h in
      let (rest, q, k1) = result_bind (resource_claim_infos spec slices claims) _ k in
      subst
        (λ (infos : List ResourceClaimInfo).
          map name_of_info infos ≡ map name_of_claim (select is_waiting (rc ∷ claims)))
        (ok-injective _ infos k1)
        (add_found-names rc claims (is_waiting rc) found rest refl
          (allocated_info-Comes rc rc.allocation found p)
          (resource_claim_infos-names claims rest q))
