-- ===== src/Scaling/Detach.antt =====
-- What DynamicAttach and DynamicDetach ask of the operator, whatever the cluster holds.
use dynamic_device_scaler.Base.{
  ℕ, suc, ℤ, ◌≤ℤ◌, ◌<ℤ◌, ltb_ℤ, Text, true, List, [], ◌∷◌, ◌≡◌, refl, inl, inr, All, Bool-cases,
  bytes, if◌then◌else◌, Option, some, none, text_eq, arith,
}
use dynamic_device_scaler.Types.{Duration}
use dynamic_device_scaler.Kube.{
  ComposabilityRequest, ComposableResource, Write, create_request, patch_size,
}
use dynamic_device_scaler.Effects.{
  Reply, done, refused, wrap, Environment, request, NamesAgree, OnOk, Ensures, Always,
  Ensures-weaken, pure-Ensures, lift-Ensures, wrap-Ensures, read-Ensures, send-Ensures, >>=-Ensures,
  if-Ensures,
}
use dynamic_device_scaler.Patch.Requests.{patch_composability_request_size-Ensures}
use dynamic_device_scaler.LastUsed.Age.{is_last_used_over_threshold-Ensures}
use dynamic_device_scaler.Scaling.{
  is_kept, new_request, result_of, count_recent, get_next_size, dynamic_attach, dynamic_detach,
}

result_of-OnOk :
    (reply : Reply (Unit {0}))
    → OnOk Always (result_of "failed to create ComposabilityRequest" reply)
result_of-OnOk (done _) = tt
result_of-OnOk (refused e) = tt

-- A patch of this request to a smaller size, which covers the count that is needed.
pub record Shrinks (cr : ComposabilityRequest) (count : ℤ) (w : Write) : Type 0 where
  pub size : ℤ
  pub written : w ≡ patch_size cr.name size
  pub covers : count ≤ℤ size
  pub smaller : size <ℤ cr.resource.size

-- The write of an attach: a new size for the request, or a new request.
abbrev pub attach_write : Option ComposabilityRequest → ℤ → Text → Text → Text → Write
attach_write (some cr) count resource_type model node_name = patch_size cr.name count
attach_write none count resource_type model node_name =
    create_request (bytes "composability-") (new_request count resource_type model node_name)

module _ (env : Environment) where
  count_recent-Ensures :
      {P : Write → Type 0} (node_name prefix : Text) (threshold : Duration) (count : ℕ)
      (rs : List ComposableResource)
      → Ensures P Always (count_recent env node_name prefix threshold count rs)
  unfolding count_recent
  count_recent-Ensures node_name prefix threshold count [] = pure-Ensures count tt
  count_recent-Ensures node_name prefix threshold count (r ∷ rs) =
      >>=-Ensures {Q = Always} _ _
        (if-Ensures (is_kept node_name r) _ _
          (is_last_used_over_threshold-Ensures env r prefix threshold true) (pure-Ensures true tt))
        λ over _.
          count_recent-Ensures node_name prefix threshold (if over then count else suc count) rs

  -- The next size sends nothing and is never below the count.
  pub get_next_size-Ensures :
      {P : Write → Type 0} (count : ℤ) (node_name prefix : Text) (threshold : Duration)
      → Ensures P (λ size. count ≤ℤ size) (get_next_size env count node_name prefix threshold)
  unfolding get_next_size
  get_next_size-Ensures count node_name prefix threshold =
      >>=-Ensures {Q = Always} (wrap _ (request env.list_resources)) _
        (read-Ensures _ env.list_resources)
        λ rs _.
          >>=-Ensures {Q = Always} (count_recent env node_name prefix threshold 0 rs) _
            (count_recent-Ensures node_name prefix threshold 0 rs)
            λ recent _. pure-Ensures _ (ground arith)

  module _ (named : NamesAgree env) where
    pub dynamic_detach-Ensures :
        (cr : ComposabilityRequest) (count : ℤ) (node_name prefix : Text) (threshold : Duration)
        → Ensures (Shrinks cr count) Always (dynamic_detach env cr count node_name prefix threshold)
    unfolding dynamic_detach
    dynamic_detach-Ensures cr count node_name prefix threshold =
        >>=-Ensures (wrap _ (get_next_size env count node_name prefix threshold)) _
          (wrap-Ensures _ _ (get_next_size-Ensures count node_name prefix threshold))
          λ size covers. elim (Bool-cases (ltb_ℤ size cr.resource.size)) [
            | inl less ↦ rw less (
                Ensures-weaken
                  (λ w e. record {
                    size = size;
                    written = e;
                    covers = covers;
                    smaller = ground arith;
                  })
                  (λ _ _. tt) (patch_composability_request_size-Ensures env cr.name size named))
            | inr more ↦ rw more (pure-Ensures tt tt)
          ]

    pub dynamic_attach-Ensures :
        (cr : Option ComposabilityRequest) (count : ℤ) (resource_type model node_name : Text)
        → Ensures
            (λ w. w ≡ attach_write cr count resource_type model node_name)
            Always
            (dynamic_attach env cr count resource_type model node_name)
    unfolding dynamic_attach
    dynamic_attach-Ensures (some cr) count resource_type model node_name =
        patch_composability_request_size-Ensures env cr.name count named
    dynamic_attach-Ensures none count resource_type model node_name =
        >>=-Ensures {Q = Always} _ _ (send-Ensures env _ refl)
          λ reply _. lift-Ensures _ (result_of-OnOk reply)

-- Whatever the cluster holds and answers, a detach only ever asks for a size of this request that
-- is below its present size and not below the count that is needed.
pub dynamic_detach-sends :
    (env : Environment)
    → NamesAgree env
    → (cr : ComposabilityRequest) (count : ℤ) (node_name prefix : Text) (threshold : Duration)
      (s : env.State)
    → All (Shrinks cr count) (dynamic_detach env cr count node_name prefix threshold s).writes
dynamic_detach-sends env named cr count node_name prefix threshold s =
    (dynamic_detach-Ensures env named cr count node_name prefix threshold).sends s
