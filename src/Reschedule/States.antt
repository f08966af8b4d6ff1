-- ===== src/Reschedule/States.antt =====
-- How the notifications change the claims of a node: a claim stays, or all of its devices go to one
-- state. What holds of the claim at an index, and of the claim that it was.
use dynamic_device_scaler.Base.{
  ℕ, zero, suc, ◌<◌, ◌≤◌, Text, Bool, true, ◌&&◌, Option, none, some, List, [], ◌∷◌, map, ◌≡◌, refl,
  sym, ap, ◌∙◌, subst, ◌⊎◌, inl, inr, In, get_elem?, set, length, ◌==◌, arith,
}
use mathlib.Core.Option.{some-injective}
use dynamic_device_scaler.Types.{
  DeviceState, preparing, state_eq, ResourceClaimDevice, ResourceClaimInfo,
}
use dynamic_device_scaler.Kube.{Write}
use dynamic_device_scaler.Effects.{
  Action, Environment, NamesAgree, Ensures, Always, pure-Ensures, >>=-Ensures,
}
use dynamic_device_scaler.Patch.Claims.{
  SetsCondition, patch_resource_claim_device_conditions-Ensures,
}
use dynamic_device_scaler.Reschedule.{with_device_state, with_state, set_devices_state, at_claim}

-- Every device of the claim is in state Preparing.
abbrev pub all_preparing_in : List ResourceClaimDevice → Bool
all_preparing_in [] = true
all_preparing_in (d ∷ ds) = d.state == preparing && all_preparing_in ds

abbrev pub all_preparing : ResourceClaimInfo → Bool
all_preparing rc = all_preparing_in rc.devices

module _ (target : DeviceState) where
  abbrev pub Becomes : ResourceClaimInfo → ResourceClaimInfo → Type 0
  Becomes old new = (new ≡ old) ⊎ (new ≡ with_state target old)

  -- Claim by claim, in the same order.
  abbrev pub AllBecome : List ResourceClaimInfo → List ResourceClaimInfo → Type 0
  AllBecome [] [] = Unit
  AllBecome (x ∷ xs) (y ∷ ys) = Becomes x y × AllBecome xs ys
  AllBecome [] (y ∷ ys) = ⊥
  AllBecome (x ∷ xs) [] = ⊥

  with_devices_twice :
      (ds : List ResourceClaimDevice)
      → map (with_device_state target) (map (with_device_state target) ds)
        ≡ map (with_device_state target) ds
  with_devices_twice [] = refl
  with_devices_twice (d ∷ ds) = rw (with_devices_twice ds)

  with_state_twice :
      (rc : ResourceClaimInfo) → with_state target (with_state target rc) ≡ with_state target rc
  with_state_twice rc = rw (with_devices_twice rc.devices)

  pub Becomes-with_state :
      (old new : ResourceClaimInfo) → Becomes old new → Becomes old (with_state target new)
  Becomes-with_state old new (inl e) = inr (ap (with_state target) e)
  Becomes-with_state old new (inr e) = inr (ap (with_state target) e ∙ with_state_twice old)

  pub AllBecome-refl : (xs : List ResourceClaimInfo) → AllBecome xs xs
  AllBecome-refl [] = tt
  AllBecome-refl (x ∷ xs) = (inl refl, AllBecome-refl xs)

  -- The claim that a claim at an index was.
  pub AllBecome-get :
      (xs ys : List ResourceClaimInfo) (k : ℕ) (y : ResourceClaimInfo)
      → AllBecome xs ys
      → get_elem? ys k ≡ some y
      → (x : ResourceClaimInfo) × (get_elem? xs k ≡ some x) × Becomes x y
  AllBecome-get [] [] k y h e = cc
  AllBecome-get [] (z ∷ ys) k y h e = absurd h
  AllBecome-get (x ∷ xs) [] k y h e = absurd h
  AllBecome-get (x ∷ xs) (z ∷ ys) zero y h e =
      (x, refl, subst (Becomes x) (some-injective z y e) h.0)
  AllBecome-get (x ∷ xs) (z ∷ ys) (suc k) y h e = AllBecome-get xs ys k y h.1 e

  pub AllBecome-set_of :
      (xs ys : List ResourceClaimInfo) (k : ℕ) (y : ResourceClaimInfo)
      → AllBecome xs ys
      → ((x : ResourceClaimInfo) → get_elem? xs k ≡ some x → Becomes x y)
      → AllBecome xs (set ys k y)
  AllBecome-set_of [] [] k y h f = tt
  AllBecome-set_of [] (z ∷ ys) k y h f = absurd h
  AllBecome-set_of (x ∷ xs) [] k y h f = absurd h
  AllBecome-set_of (x ∷ xs) (z ∷ ys) zero y h f = (f x refl, h.1)
  AllBecome-set_of (x ∷ xs) (z ∷ ys) (suc k) y h f = (h.0, AllBecome-set_of xs ys k y h.1 f)

  -- A write-back at an index of the claim that was read there, in the new state.
  pub AllBecome-set :
      (xs ys zs : List ResourceClaimInfo) (k : ℕ) (y : ResourceClaimInfo)
      → AllBecome xs ys
      → AllBecome xs zs
      → get_elem? ys k ≡ some y
      → AllBecome xs (set zs k (with_state target y))
  AllBecome-set xs ys zs k y h g e =
      let (x, p, b) = AllBecome-get xs ys k y h e in
      AllBecome-set_of xs zs k (with_state target y) g λ x' p'.
        Becomes-with_state x' y
          (subst (λ (z : ResourceClaimInfo). Becomes z y) (some-injective x x' (sym p ∙ p')) b)

-- The element at an index is in the list.
pub In-of_get :
    (xs : List ResourceClaimInfo) (k : ℕ) {x : ResourceClaimInfo}
    → get_elem? xs k ≡ some x
    → In x xs
In-of_get [] k e = cc
In-of_get (z ∷ xs) zero {x} e = inl (sym (some-injective z x e))
In-of_get (z ∷ xs) (suc k) e = inr (In-of_get xs k e)

pub lt_of_get :
    (xs : List ResourceClaimInfo) (k : ℕ) {x : ResourceClaimInfo}
    → get_elem? xs k ≡ some x
    → k < length xs
lt_of_get [] k e = cc
lt_of_get (z ∷ xs) zero e = omega arith
lt_of_get (z ∷ xs) (suc k) e = omega (arith, lt_of_get xs k e)

pub le_of_get_none : (xs : List ResourceClaimInfo) (k : ℕ) → get_elem? xs k ≡ none → length xs ≤ k
le_of_get_none [] k e = omega arith
le_of_get_none (z ∷ xs) zero e = cc
le_of_get_none (z ∷ xs) (suc k) e = omega (arith, le_of_get_none xs k e)

pub AllBecome-length :
    (target : DeviceState) (xs ys : List ResourceClaimInfo)
    → AllBecome target xs ys
    → length ys ≡ length xs
AllBecome-length target [] [] b = refl
AllBecome-length target [] (y ∷ ys) b = absurd b
AllBecome-length target (x ∷ xs) [] b = absurd b
AllBecome-length target (x ∷ xs) (y ∷ ys) b = ap suc (AllBecome-length target xs ys b.1)

-- What stands at an index after a write.
pub get_elem?-set_cases :
    (xs : List ResourceClaimInfo) (i k : ℕ) (v : ResourceClaimInfo) {y : ResourceClaimInfo}
    → get_elem? (set xs i v) k ≡ some y
    → (y ≡ v) ⊎ (get_elem? xs k ≡ some y)
get_elem?-set_cases [] i k v e = inr e
get_elem?-set_cases (x ∷ xs) zero zero v {y} e = inl (sym (some-injective v y e))
get_elem?-set_cases (x ∷ xs) zero (suc k) v e = inr e
get_elem?-set_cases (x ∷ xs) (suc i) zero v e = inr e
get_elem?-set_cases (x ∷ xs) (suc i) (suc k) v e = get_elem?-set_cases xs i k v e

pub get_elem?-set_self :
    (xs : List ResourceClaimInfo) (k : ℕ) (v : ResourceClaimInfo) {y : ResourceClaimInfo}
    → get_elem? (set xs k v) k ≡ some y
    → y ≡ v
get_elem?-set_self [] k v e = cc
get_elem?-set_self (x ∷ xs) zero v {y} e = sym (some-injective v y e)
get_elem?-set_self (x ∷ xs) (suc k) v e = get_elem?-set_self xs k v e

-- `setDevicesState` returns the claim in the state, and patches only that claim.
pub set_devices_state-Ensures :
    (env : Environment)
    → NamesAgree env
    → (rc : ResourceClaimInfo) (target : DeviceState) (type : Text)
    → Ensures
        (SetsCondition rc.name rc.namespace type)
        (λ out. out ≡ with_state target rc)
        (set_devices_state env rc target type)
unfolding set_devices_state
set_devices_state-Ensures env named rc target type =
    >>=-Ensures {Q = Always} _ _
      (patch_resource_claim_device_conditions-Ensures env named rc.name rc.namespace type)
      λ _ _. pure-Ensures (with_state target rc) refl

pub at_claim-Ensures :
    {S A : Type 0} {P : Write → Type 0} {Q : A → Type 0} (o : Option ResourceClaimInfo)
    (stop : Action S A) (round : ResourceClaimInfo → Action S A)
    → (o ≡ none → Ensures P Q stop)
    → ((rc : ResourceClaimInfo) → o ≡ some rc → Ensures P Q (round rc))
    → Ensures P Q (at_claim o stop round)
at_claim-Ensures none stop round h f = h refl
at_claim-Ensures (some rc) stop round h f = f rc refl
