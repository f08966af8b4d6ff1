-- ===== src/Patch/Requests.antt =====
-- What the patches send, whatever the server answers, and what it means that they return.
use dynamic_device_scaler.Base.{
  ℤ, ◌≤◌, Text, String, none, ◌≡◌, refl, All, length, text_eq, subst, arith,
}
use dynamic_device_scaler.Kube.{Write, patch_size}
use dynamic_device_scaler.Effects.{
  conflict, other, Reply, done, refused, ok, lift, wrap, ◌>>=◌, Environment, Program, request, send,
  NamesAgree, OnOk, Ensures, Always, Ensures-ok, lift-Ensures, wrap-Ensures, request-Ensures,
  read-writes, send-Ensures, >>=-Ensures, >>=-writes-le, >>=-ok,
}
use dynamic_device_scaler.Patch.{
  Attempt, finished, max_retries, attempt_of, size_round, patch_composability_request_size,
}
use dynamic_device_scaler.Patch.Retry.{retry-Ensures, retry-writes-le, retry-ok}

-- A state in which the server took the write, and left this state.
abbrev pub Accepted : (env : Environment) → Write → env.State → Type 0
Accepted env w end = (t : env.State) × (env.submit w t ≡ (done tt, end))

attempt_of-OnOk : (text : String) (r : Reply (Unit {0})) → OnOk Always (attempt_of text r)
attempt_of-OnOk text (done _) = tt
attempt_of-OnOk text (refused conflict) = tt
attempt_of-OnOk text (refused (other e)) = tt

pub attempt_of-finished :
    (text : String) (r : Reply (Unit {0})) → attempt_of text r ≡ ok finished → r ≡ done tt
attempt_of-finished text (done _) h = refl
attempt_of-finished text (refused conflict) h = cc
attempt_of-finished text (refused (other e)) h = cc

module _ (env : Environment) where
  -- The end of every round: the write and the look at its answer.
  abbrev pub submit_round : String → Write → Program env Attempt
  submit_round text w = send env w >>= λ reply. lift (attempt_of text reply)

  pub submit_round-Ensures :
      {P : Write → Type 0} (text : String) (w : Write)
      → P w
      → Ensures P Always (submit_round text w)
  submit_round-Ensures text w p =
      >>=-Ensures {Q = Always} (send env w) _ (send-Ensures env w p)
        λ reply _. lift-Ensures (attempt_of text reply) (attempt_of-OnOk text reply)

  pub submit_round-writes-le :
      (text : String) (w : Write) (s : env.State) → length (submit_round text w s).writes ≤ 1
  submit_round-writes-le text w s = omega arith

  pub submit_round-Accepted :
      (text : String) (w : Write) (s : env.State)
      → (submit_round text w s).result ≡ ok finished
      → Accepted env w (submit_round text w s).state
  submit_round-Accepted text w s h =
      (s, λ i. (attempt_of-finished text (env.submit w s).0 h i, (env.submit w s).1))

pub get-named :
    {P : Write → Type 0} (env : Environment) (name : Text)
    → NamesAgree env
    → Ensures P
        (λ r. r.name ≡ name)
        (wrap "failed to get ComposabilityRequest" (request (env.get_request name)))
get-named env name named =
    wrap-Ensures _ _ (request-Ensures (env.get_request name) (named.request_named name))

module _ (env : Environment) (name : Text) (count : ℤ) where
  size_round-writes-le : (s : env.State) → length (size_round env name count s).writes ≤ 1
  unfolding size_round
  size_round-writes-le s =
      >>=-writes-le (wrap _ (request (env.get_request name))) _ 0 1 s
        (read-writes "failed to get ComposabilityRequest" (env.get_request name) s)
        λ existing t.
          submit_round-writes-le env "failed to patch ComposabilityRequest"
            (patch_size existing.name count) t

  module _ (named : NamesAgree env) where
    size_round-Ensures : Ensures (λ w. w ≡ patch_size name count) Always (size_round env name count)
    unfolding size_round
    size_round-Ensures =
        >>=-Ensures (wrap _ (request (env.get_request name))) _ (get-named env name named)
          λ existing e. submit_round-Ensures env _ _ (rw e)

    size_round-Accepted :
        (s : env.State)
        → (size_round env name count s).result ≡ ok finished
        → Accepted env (patch_size name count) (size_round env name count s).state
    unfolding size_round
    size_round-Accepted s h =
        let get = wrap "failed to get ComposabilityRequest" (request (env.get_request name)) in
        let (existing, p, q, r) = >>=-ok get _ s h in
        let e = Ensures-ok get s (get-named {P = λ _. ⊥} env name named) p in
        subst (λ n. Accepted env (patch_size n count) (size_round env name count s).state) e
          (subst (Accepted env (patch_size existing.name count)) r (
            submit_round-Accepted env "failed to patch ComposabilityRequest"
              (patch_size existing.name count) (get s).state q))

    -- The step of a larger program.
    pub patch_composability_request_size-Ensures :
        Ensures
          (λ w. w ≡ patch_size name count)
          Always
          (patch_composability_request_size env name count)
    unfolding patch_composability_request_size
    patch_composability_request_size-Ensures =
        retry-Ensures max_retries none (size_round env name count) size_round-Ensures

    -- Whatever the server answers, the only writes are patches of this request to this size, one
    -- for each try and so at most two.
    pub patch_composability_request_size-sends :
        (s : env.State)
        → All
            (λ w. w ≡ patch_size name count)
            (patch_composability_request_size env name count s).writes
          × (length (patch_composability_request_size env name count s).writes ≤ max_retries)
    unfolding patch_composability_request_size
    patch_composability_request_size-sends s = (
      patch_composability_request_size-Ensures.sends s,
      retry-writes-le max_retries none (size_round env name count) s size_round-writes-le,
    )

    -- It returns without an error only after the server has taken the patch.
    pub patch_composability_request_size-ok :
        (s : env.State)
        → (patch_composability_request_size env name count s).result ≡ ok tt
        → Accepted env
            (patch_size name count)
            (patch_composability_request_size env name count s).state
    unfolding patch_composability_request_size
    patch_composability_request_size-ok s h =
        let (t, p, q) = retry-ok max_retries none (size_round env name count) s h in
        subst (Accepted env (patch_size name count)) q (size_round-Accepted t p)
