-- ===== src/Reschedule/Failed/Outcome.antt =====
-- What RescheduleFailedNotification returns and sends.
use dynamic_device_scaler.Base.{
  ℕ, zero, suc, ◌+◌, pos, ltb_ℤ, Text, true, some, List, [], ◌∷◌, ◌≡◌, refl, sym, ◌∙◌, subst, inl,
  inr, In, All, length, get_elem?, set, arith,
}
use native.Mathlib.Decide.{dec_lt}
use mathlib.Core.Option.{some-injective}
use dynamic_device_scaler.Types.{failed, ResourceClaimInfo}
use dynamic_device_scaler.Kube.{Write}
use dynamic_device_scaler.Effects.{
  Environment, pure, NamesAgree, Ensures, Always, Ensures-weaken, pure-Ensures, wrap-Ensures,
  observe-Ensures, >>=-Ensures, if-Ensures, ◌>>=◌,
}
use dynamic_device_scaler.Models.{get_model_limit}
use dynamic_device_scaler.Patch.Claims.{SetsCondition}
use dynamic_device_scaler.Usage.Sends.{get_configured_device_count-Ensures}
use dynamic_device_scaler.Reschedule.{with_state, fabric_device_failed}
use dynamic_device_scaler.Reschedule.States.{
  all_preparing, Becomes, AllBecome, AllBecome-refl, AllBecome-get, AllBecome-set, In-of_get,
  le_of_get_none, AllBecome-length, get_elem?-set_cases, get_elem?-set_self,
  set_devices_state-Ensures, at_claim-Ensures,
}
use dynamic_device_scaler.Reschedule.Failed.{
  Verdict, skip, clash, clash_with, fits, Scene, devices_verdict, fail_claim, check_limits, judge,
  failed_loop,
}
use dynamic_device_scaler.Reschedule.Failed.Verdicts.{
  IsFit, devices_verdict-fits, devices_verdict-skip, devices_verdict-at,
}
use dynamic_device_scaler.Reschedule.Failed.Settled.{
  Settled, Settled-AllBecome, IsFit-Becomes, not_ready,
}

-- A write that sets FabricDeviceFailed on the devices of one of the claims.
pub record FailsClaim (claims : List ResourceClaimInfo) (w : Write) : Type 0 where
  pub claim : ResourceClaimInfo
  pub member : In claim claims
  pub patch : SetsCondition claim.name claim.namespace fabric_device_failed w

Becomes-names :
    (x y : ResourceClaimInfo) → Becomes failed x y → (y.name ≡ x.name) × (y.namespace ≡ x.namespace)
Becomes-names x y (inl e) = rw e (refl, refl)
Becomes-names x y (inr e) = rw e (refl, refl)

module _ (sc : Scene) (env : Environment) (named : NamesAgree env)
    (sorted : List ResourceClaimInfo) where
  fail_claim-Ensures :
      (claims : List ResourceClaimInfo) (k : ℕ) (rc : ResourceClaimInfo)
      → AllBecome failed sorted claims
      → get_elem? claims k ≡ some rc
      → Ensures (FailsClaim sorted) (λ out. out ≡ with_state failed rc) (fail_claim sc env rc)
  unfolding fail_claim
  fail_claim-Ensures claims k rc b e =
      let (x, p, q) = AllBecome-get failed sorted claims k rc b e in
      let (n, m) = Becomes-names x rc q in
      wrap-Ensures "failed to set devices state" _ (
        Ensures-weaken
          (λ w h. record {
            claim = x;
            member = In-of_get sorted k p;
            patch = record {
              devices = h.devices;
              written = rw (← n, ← m) h.written;
              some_device = h.some_device;
              on_each = h.on_each;
            };
          })
          (λ _ h. h) (set_devices_state-Ensures env named rc failed fabric_device_failed))

  module _ (claims : List ResourceClaimInfo) (k : ℕ) (rc : ResourceClaimInfo)
      (b : AllBecome failed sorted claims) (e : get_elem? claims k ≡ some rc) where
    -- The claims in the loop over the models of the claim at the index.
    record Checked (c : List ResourceClaimInfo) : Type 0 where
      from_sorted : AllBecome failed sorted c
      from_here : AllBecome failed claims c
      at_index : (y : ResourceClaimInfo) → get_elem? c k ≡ some y → Becomes failed rc y

    -- The claims after the round.
    record Judged (c : List ResourceClaimInfo) : Type 0 where
      from_sorted : AllBecome failed sorted c
      from_here : AllBecome failed claims c
      at_index :
          (y : ResourceClaimInfo)
          → get_elem? c k ≡ some y
          → all_preparing y ≡ true
          → All (IsFit sc y c) y.devices

    Checked-set :
        (c : List ResourceClaimInfo) → Checked c → Checked (set c k (with_state failed rc))
    Checked-set c h = record {
      from_sorted = AllBecome-set failed sorted claims c k rc b h.from_sorted e;
      from_here =
          AllBecome-set failed claims claims c k rc (AllBecome-refl failed claims) h.from_here e;
      at_index = λ y p. inr (get_elem?-set_self c k (with_state failed rc) p);
    }

    fail_and_set-Ensures :
        (c : List ResourceClaimInfo)
        → Checked c
        → Ensures (FailsClaim sorted) Checked (fail_claim sc env rc >>= λ rc'. pure (set c k rc'))
    fail_and_set-Ensures c h =
        >>=-Ensures (fail_claim sc env rc) _ (fail_claim-Ensures claims k rc b e)
          λ out q. pure-Ensures (set c k out) (rw q (Checked-set c h))

    check_limits-Ensures :
        (models : List Text) (c : List ResourceClaimInfo)
        → Checked c
        → Ensures (FailsClaim sorted) Checked (check_limits sc env rc k models c)
    unfolding check_limits
    check_limits-Ensures [] c h = pure-Ensures c h
    check_limits-Ensures (model ∷ models) c h =
        >>=-Ensures {Q = Always} _ _
          (wrap-Ensures _ _
            (get_configured_device_count-Ensures env model sc.node.name c sc.slices))
          λ count _.
            >>=-Ensures _ _
              (if-Ensures (ltb_ℤ (get_model_limit sc.node model).0 (pos count)) _ _
                (fail_and_set-Ensures c h) (pure-Ensures c h))
              λ c' h'. check_limits-Ensures models c' h'

    start : Checked claims
    start = record {
      from_sorted = b;
      from_here = AllBecome-refl failed claims;
      at_index = λ y p. inl (some-injective y rc (sym p ∙ e));
    }

    -- A claim in state failed has no device that would have to be fit.
    Checked→Judged :
        (c : List ResourceClaimInfo)
        → ((y : ResourceClaimInfo)
            → get_elem? c k ≡ some y
            → (z : ResourceClaimInfo) × (y ≡ with_state failed z))
        → AllBecome failed sorted c
        → AllBecome failed claims c
        → Judged c
    Checked→Judged c at s h = record {
      from_sorted = s;
      from_here = h;
      at_index = λ y p ready.
          let (z, q) = at y p in
          subst (λ (x : ResourceClaimInfo). All (IsFit sc x c) x.devices) (sym q)
            (not_ready (IsFit sc (with_state failed z) c) z.devices
              (subst (λ (x : ResourceClaimInfo). all_preparing x ≡ true) q ready));
    }

    -- The claim and the claim that it clashes with, both failed.
    both_failed :
        (i : ℕ) (rc2 : ResourceClaimInfo)
        → get_elem? claims i ≡ some rc2
        → Judged (set (set claims k (with_state failed rc)) i (with_state failed rc2))
    both_failed i rc2 here =
        let one = set claims k (with_state failed rc) in
        let h = Checked-set claims start in
        Checked→Judged (set one i (with_state failed rc2))
          (λ y p. elim (get_elem?-set_cases one i k (with_state failed rc2) p) [
            | inl q ↦ (rc2, q)
            | inr q ↦ (rc, get_elem?-set_self claims k (with_state failed rc) q)
          ])
          (AllBecome-set failed sorted claims one i rc2 b h.from_sorted here)
          (AllBecome-set failed claims claims one i rc2 (AllBecome-refl failed claims) h.from_here
            here)

    judge-Ensures :
        (v : Verdict)
        → devices_verdict sc rc claims rc.devices ≡ v
        → Ensures (FailsClaim sorted) Judged (judge sc env rc k claims v)
    unfolding judge
    judge-Ensures skip f = pure-Ensures claims (record {
      from_sorted = b;
      from_here = AllBecome-refl failed claims;
      at_index = λ y p ready.
          let q = some-injective y rc (sym p ∙ e) in
          let waits = devices_verdict-skip sc rc claims rc.devices f in absurd (cc);
    })
    judge-Ensures clash f =
        >>=-Ensures (fail_claim sc env rc) _ (fail_claim-Ensures claims k rc b e) λ out q.
          pure-Ensures (set claims k out) (
            rw q (
              let h = Checked-set claims start in
              Checked→Judged (set claims k (with_state failed rc))
                (λ y p. (rc, get_elem?-set_self claims k (with_state failed rc) p)) h.from_sorted
                h.from_here))
    judge-Ensures (clash_with i rc2) f =
        let here = devices_verdict-at sc rc claims rc.devices i rc2 f in
        >>=-Ensures (fail_claim sc env rc) _ (fail_claim-Ensures claims k rc b e) λ out q.
          >>=-Ensures (fail_claim sc env rc2) _ (fail_claim-Ensures claims i rc2 b here) λ out2 q2.
            pure-Ensures (set (set claims k out) i out2) (rw (q, q2) (both_failed i rc2 here))
    judge-Ensures fits f = >>=-Ensures {Q = Always} _ _ (observe-Ensures _ (λ s. tt)) λ models _.
        Ensures-weaken (λ w h. h)
          (λ c h. record {
            from_sorted = h.from_sorted;
            from_here = h.from_here;
            at_index = λ y p ready.
                IsFit-Becomes sc claims c rc y h.from_here (h.at_index y p)
                  (λ _. (devices_verdict-fits sc rc claims rc.devices).0 f) ready;
          })
          (check_limits-Ensures models claims start)

  Settled-suc :
      (claims : List ResourceClaimInfo) (k : ℕ) (rc : ResourceClaimInfo)
      (b : AllBecome failed sorted claims) (e : get_elem? claims k ≡ some rc)
      (c : List ResourceClaimInfo)
      → Judged claims k rc b e c
      → Settled sc k claims
      → Settled sc (suc k) c
  Settled-suc claims k rc b e c j settled i y lt p ready = elim (dec_lt i k) [
    | yes less ↦ Settled-AllBecome sc k claims c j.from_here settled i y less p ready
    | no more ↦
        let same : i ≡ k = omega arith in
        j.at_index y (subst (λ n. get_elem? c n ≡ some y) same p) ready
  ]

  abbrev pub OutcomeOf : List ResourceClaimInfo → Type 0
  OutcomeOf out = AllBecome failed sorted out × Settled sc (length sorted) out

  pub failed_loop-Ensures :
      (n k : ℕ) (claims : List ResourceClaimInfo)
      → k + n ≡ length sorted
      → AllBecome failed sorted claims
      → Settled sc k claims
      → Ensures (FailsClaim sorted) OutcomeOf (failed_loop sc env n k claims)
  unfolding failed_loop
  failed_loop-Ensures zero k claims len b settled =
      pure-Ensures claims (b, λ i rc lt. settled i rc (omega arith))
  failed_loop-Ensures (suc n) k claims len b settled =
      at_claim-Ensures (get_elem? claims k) (pure claims) _
        (λ e.
          absurd
            (omega (arith, le_of_get_none claims k e, AllBecome-length failed sorted claims b)))
        λ rc e.
          >>=-Ensures (judge sc env rc k claims (devices_verdict sc rc claims rc.devices)) _
            (judge-Ensures claims k rc b e (devices_verdict sc rc claims rc.devices) refl)
            λ c j.
              failed_loop-Ensures n (suc k) c (omega arith) j.from_sorted
                (Settled-suc claims k rc b e c j settled)
