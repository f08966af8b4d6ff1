-- ===== src/Patch/Takes.antt =====
-- The patches that return without an error: the server has taken the write.
use dynamic_device_scaler.Base.{
  ℕ, zero, suc, ℤ, Text, String, true, Option, none, some, ==_iff, text_eq, ◌≡◌, refl, ap,
}
use dynamic_device_scaler.Kube.{ComposableResource, Write, patch_size, patch_annotation}
use dynamic_device_scaler.Effects.{
  Environment, Program, Leads, ApiError, max_retries_reached, ok, wrap, request, NamesAgree, Any,
  Runs, here, Does, Done, idle, took, at_once, pure-Does, fail-Does, Answers-Does, Ensures-Does,
  >>=-Does, read-Runs, gets_request, gets_resource, Answers, branch-Does, pure-Runs, if-Runs,
}
use dynamic_device_scaler.Patch.{
  Attempt, finished, conflicted, attempt_of, after_attempt, retry, max_retries, annotation,
  is_set_to, size_round, annotation_round, patch_composability_request_size,
  patch_composable_resource_annotation,
}
use dynamic_device_scaler.Patch.Requests.{submit_round, attempt_of-finished, get-named}
use dynamic_device_scaler.Patch.Runs.{
  submit_round-Runs, after_attempt-Runs, retry-Runs, size_round-Runs, annotation_round-Runs,
}

-- What a round without a write comes to: another round, or an end for a reason.
abbrev Unfinished : Type 0 → Attempt → Type 0
Unfinished N finished = N
Unfinished N (conflicted e) = Unit

module _ (env : Environment) {s0 : env.State} {N : Type 0} {P : Write → Type 0} where
  submit_round-Does :
      (text : String) (w : Write) → P w → Does env s0 (Unfinished N) P (submit_round env text w)
  submit_round-Does text w p = record { at = outcome }
    where
      outcome :
          (s : env.State) (a : Attempt)
          → Leads env s0 s
          → attempt_of text (env.submit w s).0 ≡ ok a
          → Done env (Unfinished N a) P s (submit_round env text w s).writes (env.submit w s).1
      outcome s finished l e = took w p (
          at_once (λ i. (attempt_of-finished text (env.submit w s).0 e i, (env.submit w s).1)) here)
      outcome s (conflicted x) l e = idle tt

  after_attempt-Does :
      (a : Attempt) (next : ApiError → Program env (Unit {0}))
      → Unfinished N a
      → ((e : ApiError) → Does env s0 (λ _. N) P (next e))
      → Does env s0 (λ _. N) P (after_attempt a next)
  after_attempt-Does finished next n h = pure-Does tt n
  after_attempt-Does (conflicted e) next n h = h e

  retry-Does :
      (n : ℕ) (last : Option ApiError) (round : Program env Attempt)
      → Runs env Any round
      → Does env s0 (Unfinished N) P round
      → Does env s0 (λ _. N) P (retry n last round)
  unfolding retry
  retry-Does zero last round runs h = fail-Does (max_retries_reached last)
  retry-Does (suc n) last round runs h =
      >>=-Does round _ runs
        (λ a. after_attempt-Runs env a _ λ e. retry-Runs env n (some e) round runs) h
        λ a u. after_attempt-Does a _ u λ e. retry-Does n (some e) round runs h

module _ (env : Environment) (named : NamesAgree env) {s0 : env.State} where
  size_round-Does :
      (name : Text) (size : ℤ)
      → Does env s0 (Unfinished ⊥) (λ w. w ≡ patch_size name size) (size_round env name size)
  unfolding size_round
  size_round-Does name size =
      >>=-Does (wrap _ (request (env.get_request name))) _
        (read-Runs env _ (env.get_request name) (λ s. gets_request name refl))
        (λ existing. submit_round-Runs env _ (patch_size existing.name size))
        (Ensures-Does _ (get-named {P = λ _. ⊥} env name named))
        λ existing e. submit_round-Does env _ (patch_size existing.name size) (rw e)

  pub patch_composability_request_size-Does :
      (name : Text) (size : ℤ)
      → Does env s0
          (λ _. ⊥)
          (λ w. w ≡ patch_size name size)
          (patch_composability_request_size env name size)
  unfolding patch_composability_request_size
  patch_composability_request_size-Does name size =
      retry-Does env max_retries none _ (size_round-Runs env name size) (size_round-Does name size)

set_to : (value : Text) (o : Option Text) → is_set_to value o ≡ true → o ≡ some value
set_to value none e = cc
set_to value (some v) e = ap some ((==_iff v value).0 e)

module _ (env : Environment) (s0 : env.State) where
  -- The resource was read with the value at the key.
  pub record HasValue (name key value : Text) : Type 0 where
    pub read : ComposableResource
    pub answered :
        Answers env s0
          (wrap "failed to get latest ComposableResource" (request (env.get_resource name)))
          read
    pub has_value : annotation key read.annotations ≡ some value

  annotation_round-Does :
      (name key value : Text)
      → Does env s0
          (Unfinished (HasValue name key value))
          (λ w. w ≡ patch_annotation name key value)
          (annotation_round env name key value)
  unfolding annotation_round
  annotation_round-Does name key value =
      let write = patch_annotation name key value in
      let round = submit_round env "failed to patch ComposableResource" write in
      >>=-Does (wrap _ (request (env.get_resource name))) _
        (read-Runs env _ (env.get_resource name) (λ s. gets_resource name refl))
        (λ current.
          if-Runs (is_set_to value (annotation key current.annotations)) _ _ (pure-Runs finished tt)
            (submit_round-Runs env _ write))
        (Answers-Does _)
        λ current answered.
          branch-Does (is_set_to value (annotation key current.annotations)) _ _
            (λ e. pure-Does finished (record {
              read = current;
              answered = answered;
              has_value = set_to value (annotation key current.annotations) e;
            }))
            (λ _. submit_round-Does env _ write refl)

  pub patch_composable_resource_annotation-Does :
      (name key value : Text)
      → Does env s0
          (λ _. HasValue name key value)
          (λ w. w ≡ patch_annotation name key value)
          (patch_composable_resource_annotation env name key value)
  unfolding patch_composable_resource_annotation
  patch_composable_resource_annotation-Does name key value =
      retry-Does env max_retries none _ (annotation_round-Runs env name key value)
        (annotation_round-Does name key value)
