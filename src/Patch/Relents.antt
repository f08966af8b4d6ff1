-- ===== src/Patch/Relents.antt =====
-- The patches succeed at a server whose conflicts are fewer than the tries.
use dynamic_device_scaler.Base.{
  ℕ, zero, suc, ℤ, ◌<◌, ◌≤◌, Text, Option, some, none, ◌≡◌, refl, subst, ◌⊎◌, inl, inr, arith,
}
use dynamic_device_scaler.Kube.{ComposabilityRequest, patch_size}
use dynamic_device_scaler.Effects.{
  ApiError, conflict, done, refused, ok, Action, Environment, NamesAgree, OnDone,
}
use dynamic_device_scaler.Patch.{
  Attempt, finished, conflicted, retry, max_retries, size_round, patch_composability_request_size,
}

module _ {S : Type 0} (round : Action S Attempt) (left : S → ℕ) where
  -- A round ends the loop, or meets a conflict and leaves fewer of them.
  abbrev Progress : S → Type 0
  Progress s =
      ((round s).result ≡ ok finished)
      ⊎ ((e : ApiError) × ((round s).result ≡ ok (conflicted e)) × (left (round s).state < left s))

  retry-returns :
      (n : ℕ) (last : Option ApiError) (s : S)
      → ((t : S) → Progress t)
      → left s < n
      → (retry n last round s).result ≡ ok tt
  unfolding retry
  retry-returns zero last s p h = absurd (omega (arith, h))
  retry-returns (suc n) last s p h = elim (p s) [
    | inl e ↦ rw e refl
    | inr (x, e, l) ↦ rw e (retry-returns n (some x) (round s).state p (omega (arith, l, h)))
  ]

-- The server knows the request, and it takes the size or refuses it with a conflict, of which it
-- has no more than are left.
pub record Relents (env : Environment) (name : Text) (size : ℤ) (left : env.State → ℕ)
    : Type 0 where
  pub found :
      (s : env.State)
      → (r : ComposabilityRequest) × ((env.get_request name s).0 ≡ done r)
        × (left (env.get_request name s).1 ≤ left s)
  pub takes :
      (s : env.State)
      → ((env.submit (patch_size name size) s).0 ≡ done tt)
        ⊎ (((env.submit (patch_size name size) s).0 ≡ refused conflict)
            × (left (env.submit (patch_size name size) s).1 < left s))

module _ (env : Environment) (named : NamesAgree env) (name : Text) (size : ℤ)
    (left : env.State → ℕ) (relents : Relents env name size left) where
  size_round-Progress : (s : env.State) → Progress (size_round env name size) left s
  unfolding size_round
  size_round-Progress s =
      let (r, e, l) = relents.found s in
      let same =
        subst (OnDone (λ (r : ComposabilityRequest). r.name ≡ name)) e
          (named.request_named name s) in
      rw (e, same)
        (elim (relents.takes (env.get_request name s).1) [
          | inl f ↦ inl (rw f refl)
          | inr (f, less) ↦ inr (conflict, rw f refl, omega (arith, l, less))
        ])

  -- Where Get answers, and the server refuses the patch with conflicts only, fewer of them than
  -- there are tries, PatchComposabilityRequestSize returns without an error.
  pub patch_composability_request_size_relents :
      (s : env.State)
      → left s < max_retries
      → (patch_composability_request_size env name size s).result ≡ ok tt
  unfolding patch_composability_request_size
  patch_composability_request_size_relents s h =
      retry-returns (size_round env name size) left max_retries none s size_round-Progress h
