-- ===== src/Reschedule/Failed/Verdicts.antt =====
-- What the checks of a claim find.
use Prim.Native.Nat.add
use dynamic_device_scaler.Base.{
  ℕ, suc, ◌+◌, false, some, List, [], ◌∷◌, ◌≡◌, refl, ◌≢◌, ◌↔◌, inl, inr, All, any, get_elem?,
  Bool-cases, ◌==◌, ==_iff, text_eq, arith,
}
use dynamic_device_scaler.Types.{preparing, state_eq, ResourceClaimDevice, ResourceClaimInfo}
use dynamic_device_scaler.Reschedule.States.{all_preparing_in}
use dynamic_device_scaler.Reschedule.Failed.{
  Verdict, skip, clash, clash_with, fits, Scene, clashes_in_claim, clashes_with_request,
  clashes_with_resource, clashes_with_claim, clash_in, device_verdict, or_next, devices_verdict,
}

-- No check objects to the device of the claim.
pub record IsFit (sc : Scene) (rc : ResourceClaimInfo) (claims : List ResourceClaimInfo)
    (d : ResourceClaimDevice) : Type 0 where
  pub is_preparing : d.state ≡ preparing
  pub in_claim : any (clashes_in_claim sc d) rc.devices ≡ false
  pub with_requests : any (clashes_with_request sc rc d) sc.requests ≡ false
  pub with_resources : any (clashes_with_resource sc rc d) sc.resources ≡ false
  pub with_claims : any (clashes_with_claim sc rc d) claims ≡ false

or_next-fits : (v w : Verdict) → or_next v w ≡ fits → (v ≡ fits) × (w ≡ fits)
or_next-fits fits w h = (refl, h)
or_next-fits skip w h = cc
or_next-fits clash w h = cc
or_next-fits (clash_with k rc2) w h = cc

module _ (sc : Scene) (rc : ResourceClaimInfo) where
  clash_in-fits :
      (d : ResourceClaimDevice) (i : ℕ) (claims : List ResourceClaimInfo)
      → (clash_in sc rc d i claims ≡ fits) ↔ (any (clashes_with_claim sc rc d) claims ≡ false)
  unfolding clash_in
  clash_in-fits d i [] = (λ _. refl, λ _. refl)
  clash_in-fits d i (rc2 ∷ rcs) = elim (Bool-cases (clashes_with_claim sc rc d rc2)) [
    | inl e ↦ rw e (ground arith)
    | inr e ↦ rw e (clash_in-fits d (suc i) rcs)
  ]

  -- A clash is with the claim at its index.
  clash_in-at :
      (d : ResourceClaimDevice) (i : ℕ) (claims : List ResourceClaimInfo) (k : ℕ)
      (rc2 : ResourceClaimInfo)
      → clash_in sc rc d i claims ≡ clash_with k rc2
      → (j : ℕ) × (k ≡ i + j) × (get_elem? claims j ≡ some rc2)
  unfolding clash_in
  clash_in-at d i [] k rc2 h = cc
  clash_in-at d i (x ∷ rcs) k rc2 h = elim (Bool-cases (clashes_with_claim sc rc d x)) [
    | inl e ↦ (0, ground arith, ground arith)
    | inr e ↦ let (j, p, q) = clash_in-at d (suc i) rcs k rc2 (rw e at h) in (suc j, omega arith, q)
  ]

  clash_in-ne-skip :
      (d : ResourceClaimDevice) (i : ℕ) (claims : List ResourceClaimInfo)
      → clash_in sc rc d i claims ≢ skip
  unfolding clash_in
  clash_in-ne-skip d i [] h = cc
  clash_in-ne-skip d i (x ∷ rcs) h = ground (arith, clash_in-ne-skip d (suc i) rcs)

  device_verdict→IsFit :
      (claims : List ResourceClaimInfo) (d : ResourceClaimDevice)
      → device_verdict sc rc claims d ≡ fits
      → IsFit sc rc claims d
  unfolding device_verdict
  device_verdict→IsFit claims d h =
      ground (arith, clash_in-fits d 0 claims, ==_iff d.state preparing)

  IsFit→device_verdict :
      (claims : List ResourceClaimInfo) (d : ResourceClaimDevice)
      → IsFit sc rc claims d
      → device_verdict sc rc claims d ≡ fits
  unfolding device_verdict
  IsFit→device_verdict claims d f =
      ground (arith, clash_in-fits d 0 claims, ==_iff d.state preparing)

  -- No check objects to the claim exactly when every device is fit.
  pub devices_verdict-fits :
      (claims : List ResourceClaimInfo) (ds : List ResourceClaimDevice)
      → (devices_verdict sc rc claims ds ≡ fits) ↔ All (IsFit sc rc claims) ds
  unfolding devices_verdict
  devices_verdict-fits claims [] = (λ _. tt, λ _. refl)
  devices_verdict-fits claims (d ∷ ds) = (
    λ h.
        let (p, q) =
          or_next-fits (device_verdict sc rc claims d) (devices_verdict sc rc claims ds) h in
        (device_verdict→IsFit claims d p, (devices_verdict-fits claims ds).0 q),
    λ h. rw (IsFit→device_verdict claims d h.0, (devices_verdict-fits claims ds).1 h.1),
  )

  device_verdict-skip :
      (claims : List ResourceClaimInfo) (d : ResourceClaimDevice)
      → device_verdict sc rc claims d ≡ skip
      → (d.state == preparing) ≡ false
  unfolding device_verdict
  device_verdict-skip claims d h = ground (arith, clash_in-ne-skip d 0 claims)

  device_verdict-at :
      (claims : List ResourceClaimInfo) (d : ResourceClaimDevice) (k : ℕ) (rc2 : ResourceClaimInfo)
      → device_verdict sc rc claims d ≡ clash_with k rc2
      → get_elem? claims k ≡ some rc2
  unfolding device_verdict
  device_verdict-at claims d k rc2 h =
      let (j, p, q) = clash_in-at d 0 claims k rc2 (ground arith) in rw (p, add.zero j) q

  -- A claim that is passed over has a device that is not in state Preparing.
  pub devices_verdict-skip :
      (claims : List ResourceClaimInfo) (ds : List ResourceClaimDevice)
      → devices_verdict sc rc claims ds ≡ skip
      → all_preparing_in ds ≡ false
  unfolding devices_verdict
  devices_verdict-skip claims [] h = cc
  devices_verdict-skip claims (d ∷ ds) h =
      ground (arith, device_verdict-skip claims d, devices_verdict-skip claims ds)

  -- A clash with another claim is with the claim that stands at the index.
  pub devices_verdict-at :
      (claims : List ResourceClaimInfo) (ds : List ResourceClaimDevice) (k : ℕ)
      (rc2 : ResourceClaimInfo)
      → devices_verdict sc rc claims ds ≡ clash_with k rc2
      → get_elem? claims k ≡ some rc2
  unfolding devices_verdict
  devices_verdict-at claims [] k rc2 h = cc
  devices_verdict-at claims (d ∷ ds) k rc2 h =
      ground (arith, device_verdict-at claims d k rc2, devices_verdict-at claims ds k rc2)
