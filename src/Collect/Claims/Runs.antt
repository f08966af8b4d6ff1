-- ===== src/Collect/Claims/Runs.antt =====
-- GetResourceClaimInfo as a sequence of calls. It panics only on a selector In without values.
use dynamic_device_scaler.Base.{
  refl, ◌≡◌, Text, false, ◌&&◌, Option, none, some, List, [], ◌∷◌, All, ◌==◌, ==_iff, text_eq,
  bytes, Bool-cases, inl, inr, arith, if◌then◌else◌,
}
use dynamic_device_scaler.Types.{ComposableDraSpec, ResourceClaimDevice}
use dynamic_device_scaler.Kube.{
  DeviceResult, DeviceStatus, FieldRequirement, SelectorTerm, Allocation, ResourceSlice,
  ResourceClaim,
}
use dynamic_device_scaler.Effects.{
  Result, ok, wrap, request, Environment, done, Runs, Any, Returns, lists_claims, lists_slices,
  lift-Runs, read-Runs, answer-Runs, >>=-Runs,
}
use dynamic_device_scaler.Effects.Results.{>>=-Returns, if-Returns}
use dynamic_device_scaler.Models.{get_model_name}
use dynamic_device_scaler.Models.Returns.{get_model_name-Returns}
use dynamic_device_scaler.Collect.Slices.{is_empty}
use dynamic_device_scaler.Collect.Claims.{
  is_in_slices, device_name_of_pool, model_of, claim_devices, first_value, name_in_fields, or_else,
  get_node_name, selected_node, info_of, allocated_info, resource_claim_infos,
  get_resource_claim_info,
}

-- The operator In has values, as the API server checks.
abbrev pub HasValues : FieldRequirement → Type 0
HasValues f = f.operator ≡ bytes "In" → is_empty f.values ≡ false

abbrev TermsHaveValues : List SelectorTerm → Type 0
TermsHaveValues = All (λ t. All HasValues t.match_fields)

abbrev SelectorHasValues : Option (List SelectorTerm) → Type 0
SelectorHasValues none = Unit
SelectorHasValues (some terms) = TermsHaveValues terms

abbrev AllocationHasValues : Option Allocation → Type 0
AllocationHasValues none = Unit
AllocationHasValues (some a) = SelectorHasValues a.node_selector

abbrev pub IsReadableClaim : ResourceClaim → Type 0
IsReadableClaim claim = AllocationHasValues claim.allocation

abbrev ReturnsIn : Option (Result Text) → Type 0
ReturnsIn none = Unit
ReturnsIn (some r) = Returns Any r

first_value-Returns :
    (values : List Text) → is_empty values ≡ false → Returns Any (first_value values)
first_value-Returns [] h = cc
first_value-Returns (v ∷ values) h = tt

name_in_fields-Returns :
    (fields : List FieldRequirement) → All HasValues fields → ReturnsIn (name_in_fields fields)
unfolding name_in_fields
name_in_fields-Returns [] h = tt
name_in_fields-Returns (f ∷ fields) h =
    elim (Bool-cases (f.key == bytes "metadata.name" && f.operator == bytes "In")) [
      | inl e ↦
          rw e (first_value-Returns f.values (h.0 (ground (arith, ==_iff f.operator (bytes "In")))))
      | inr e ↦ rw e (name_in_fields-Returns fields h.1)
    ]

or_else-Returns :
    (o : Option (Result Text)) (r : Result Text)
    → ReturnsIn o
    → Returns Any r
    → Returns Any (or_else o r)
or_else-Returns none r ho hr = hr
or_else-Returns (some x) r ho hr = ho

get_node_name-Returns :
    (terms : List SelectorTerm) → TermsHaveValues terms → Returns Any (get_node_name terms)
unfolding get_node_name
get_node_name-Returns [] h = tt
get_node_name-Returns (t ∷ terms) h =
    or_else-Returns (name_in_fields t.match_fields) _ (name_in_fields-Returns t.match_fields h.0)
      (get_node_name-Returns terms h.1)

selected_node-Returns :
    (o : Option (List SelectorTerm)) → SelectorHasValues o → Returns Any (selected_node o)
selected_node-Returns none h = tt
selected_node-Returns (some terms) h = get_node_name-Returns terms h

module _ (spec : ComposableDraSpec) (slices : List ResourceSlice) where
  model_of-Returns : (d : DeviceResult) → Returns Any (model_of spec slices d)
  unfolding model_of
  model_of-Returns d =
      >>=-Returns Any Any
        (if is_in_slices d slices then get_model_name spec (device_name_of_pool d.pool) else ok [])
        _
        (if-Returns Any (is_in_slices d slices) _ _
          (get_model_name-Returns spec (device_name_of_pool d.pool)) tt)
        λ listed _. tt

  claim_devices-Returns :
      (statuses : List DeviceStatus) (results : List DeviceResult)
      → Returns Any (claim_devices spec slices statuses results)
  unfolding claim_devices
  claim_devices-Returns statuses [] = tt
  claim_devices-Returns statuses (d ∷ ds) =
      if-Returns Any (is_empty d.binding_conditions) _ _ (claim_devices-Returns statuses ds) (
        >>=-Returns Any Any (model_of spec slices d) _ (model_of-Returns d) λ model _.
          >>=-Returns Any Any (claim_devices spec slices statuses ds) _
            (claim_devices-Returns statuses ds) λ devices _. tt)

  info_of-Returns :
      (rc : ResourceClaim) (allocation : Allocation) (devices : List ResourceClaimDevice)
      → SelectorHasValues allocation.node_selector
      → Returns Any (info_of rc allocation devices)
  unfolding info_of
  info_of-Returns rc allocation [] h = tt
  info_of-Returns rc allocation (d ∷ ds) h =
      >>=-Returns Any Any (selected_node allocation.node_selector) _
        (selected_node-Returns allocation.node_selector h) λ node_name _. tt

  allocated_info-Returns :
      (rc : ResourceClaim) (o : Option Allocation)
      → AllocationHasValues o
      → Returns Any (allocated_info spec slices rc o)
  unfolding allocated_info
  allocated_info-Returns rc none h = tt
  allocated_info-Returns rc (some allocation) h = if-Returns Any (is_empty rc.reserved_for) _ _ tt (
      >>=-Returns Any Any (claim_devices spec slices rc.devices allocation.results) _
        (claim_devices-Returns rc.devices allocation.results)
        λ devices _. info_of-Returns rc allocation devices h)

  resource_claim_infos-Returns :
      (claims : List ResourceClaim)
      → All IsReadableClaim claims
      → Returns Any (resource_claim_infos spec slices claims)
  unfolding resource_claim_infos
  resource_claim_infos-Returns [] h = tt
  resource_claim_infos-Returns (rc ∷ claims) h =
      >>=-Returns Any Any (allocated_info spec slices rc rc.allocation) _
        (allocated_info-Returns rc rc.allocation h.0)
        λ found _.
          >>=-Returns Any Any (resource_claim_infos spec slices claims) _
            (resource_claim_infos-Returns claims h.1) λ rest _. tt

pub get_resource_claim_info-Runs :
    (env : Environment) (spec : ComposableDraSpec)
    → ((s : env.State) (claims : List ResourceClaim)
        → (env.list_claims s).0 ≡ done claims
        → All IsReadableClaim claims)
    → Runs env Any (get_resource_claim_info env spec)
unfolding get_resource_claim_info
get_resource_claim_info-Runs env spec readable =
    >>=-Runs {Q = All IsReadableClaim} (wrap _ (request env.list_claims)) _
      (answer-Runs env "failed to list ResourceClaims" env.list_claims (λ s. lists_claims refl)
        readable)
      λ claims h.
        >>=-Runs {Q = Any} (wrap _ (request env.list_slices)) _
          (read-Runs env "failed to list ResourceSlices" env.list_slices (λ s. lists_slices refl))
          λ slices _. lift-Runs _ (resource_claim_infos-Returns spec slices claims h)
