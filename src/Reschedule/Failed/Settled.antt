-- ===== src/Reschedule/Failed/Settled.antt =====
-- A claim that was found fit stays fit while other claims fail.
use dynamic_device_scaler.Base.{
  ℕ, ◌<◌, true, false, ◌&&◌, List, [], ◌∷◌, map, ◌≡◌, refl, subst, sym, inl, inr, All, All-map_prop,
  any, or_false, get_elem?, some, ◌==◌, text_eq, arith,
}
use dynamic_device_scaler.Types.{
  preparing, failed, state_eq, ResourceClaimDevice, ResourceClaimInfo,
}
use dynamic_device_scaler.Reschedule.{with_device_state, with_state}
use dynamic_device_scaler.Reschedule.States.{
  all_preparing, all_preparing_in, Becomes, AllBecome, AllBecome-get,
}
use dynamic_device_scaler.Reschedule.Failed.{Scene, clashes_in_claim, clashes_with_claim}
use dynamic_device_scaler.Reschedule.Failed.Verdicts.{IsFit}

-- A failed claim has no device in state Preparing.
pub not_ready :
    (P : ResourceClaimDevice → Type 0) (ds : List ResourceClaimDevice)
    → all_preparing_in (map (with_device_state failed) ds) ≡ true
    → All P (map (with_device_state failed) ds)
not_ready P [] h = tt
not_ready P (d ∷ ds) h = cc

module _ (sc : Scene) (rc : ResourceClaimInfo) (d : ResourceClaimDevice) where
  no_clash_with_failed :
      (ds : List ResourceClaimDevice)
      → any
          (λ d2. d2.state == preparing && clashes_in_claim sc d d2)
          (map (with_device_state failed) ds)
        ≡ false
  no_clash_with_failed [] = refl
  no_clash_with_failed (e ∷ ds) = no_clash_with_failed ds

  clashes-Becomes :
      (x y : ResourceClaimInfo)
      → Becomes failed x y
      → clashes_with_claim sc rc d x ≡ false
      → clashes_with_claim sc rc d y ≡ false
  clashes-Becomes x y (inl e) h = rw e h
  clashes-Becomes x y (inr e) h = rw (e, no_clash_with_failed x.devices) (ground arith)

  clashes-AllBecome :
      (xs ys : List ResourceClaimInfo)
      → AllBecome failed xs ys
      → any (clashes_with_claim sc rc d) xs ≡ false
      → any (clashes_with_claim sc rc d) ys ≡ false
  clashes-AllBecome [] [] b h = refl
  clashes-AllBecome [] (y ∷ ys) b h = absurd b
  clashes-AllBecome (x ∷ xs) [] b h = absurd b
  clashes-AllBecome (x ∷ xs) (y ∷ ys) b h =
      let (p, q) = or_false (clashes_with_claim sc rc d x) _ h in
      rw (clashes-Becomes x y b.0 p, clashes-AllBecome xs ys b.1 q)

  IsFit-AllBecome :
      (xs ys : List ResourceClaimInfo)
      → AllBecome failed xs ys
      → IsFit sc rc xs d
      → IsFit sc rc ys d
  IsFit-AllBecome xs ys b f = record {
    is_preparing = f.is_preparing;
    in_claim = f.in_claim;
    with_requests = f.with_requests;
    with_resources = f.with_resources;
    with_claims = clashes-AllBecome xs ys b f.with_claims;
  }

-- Every claim before the index that has all devices in state Preparing is fit.
abbrev pub Settled : Scene → ℕ → List ResourceClaimInfo → Type 0
Settled sc k claims =
    (i : ℕ) (rc : ResourceClaimInfo)
    → i < k
    → get_elem? claims i ≡ some rc
    → all_preparing rc ≡ true
    → All (IsFit sc rc claims) rc.devices

module _ (sc : Scene) where
  pub IsFit-Becomes :
      (xs ys : List ResourceClaimInfo) (x y : ResourceClaimInfo)
      → AllBecome failed xs ys
      → Becomes failed x y
      → (all_preparing x ≡ true → All (IsFit sc x xs) x.devices)
      → all_preparing y ≡ true
      → All (IsFit sc y ys) y.devices
  IsFit-Becomes xs ys x y b (inl e) f h =
      subst (λ (z : ResourceClaimInfo). All (IsFit sc z ys) z.devices) (sym e)
        (All-map_prop x.devices (λ d. IsFit-AllBecome sc x d xs ys b)
          (f (subst (λ (z : ResourceClaimInfo). all_preparing z ≡ true) e h)))
  IsFit-Becomes xs ys x y b (inr e) f h =
      subst (λ (z : ResourceClaimInfo). All (IsFit sc z ys) z.devices) (sym e)
        (not_ready (IsFit sc (with_state failed x) ys) x.devices
          (subst (λ (z : ResourceClaimInfo). all_preparing z ≡ true) e h))

  pub Settled-AllBecome :
      (k : ℕ) (xs ys : List ResourceClaimInfo)
      → AllBecome failed xs ys
      → Settled sc k xs
      → Settled sc k ys
  Settled-AllBecome k xs ys b settled i y lt e h =
      let (x, p, q) = AllBecome-get failed xs ys i y b e in
      IsFit-Becomes xs ys x y b q (settled i x lt p) h
