-- ===== src/Patch/Retry.antt =====
-- The loop of every patch: what it sends, how often, and what a return means.
use dynamic_device_scaler.Base.{ℕ, zero, suc, ◌≤◌, ◌≡◌, subst, Option, some, length, arith}
use dynamic_device_scaler.Kube.{Write}
use dynamic_device_scaler.Effects.{
  ApiError, max_retries_reached, ok, Action, Ensures, Always, pure-Ensures, fail-Ensures,
  >>=-Ensures, >>=-writes-le, >>=-ok,
}
use dynamic_device_scaler.Patch.{Attempt, finished, conflicted, after_attempt, retry}

module _ {S : Type 0} where
  after_attempt-Ensures :
      {P : Write → Type 0} (a : Attempt) (next : ApiError → Action S (Unit {0}))
      → ((e : ApiError) → Ensures P Always (next e))
      → Ensures P Always (after_attempt a next)
  after_attempt-Ensures finished next h = pure-Ensures tt tt
  after_attempt-Ensures (conflicted e) next h = h e

  pub retry-Ensures :
      {P : Write → Type 0} (n : ℕ) (last : Option ApiError) (round : Action S Attempt)
      → Ensures P Always round
      → Ensures P Always (retry n last round)
  unfolding retry
  retry-Ensures zero last round h = fail-Ensures (max_retries_reached last)
  retry-Ensures (suc n) last round h =
      >>=-Ensures {Q = Always} round _ h
        λ a _. after_attempt-Ensures a _ λ e. retry-Ensures n (some e) round h

  after_attempt-writes-le :
      (a : Attempt) (next : ApiError → Action S (Unit {0})) (n : ℕ) (t : S)
      → ((e : ApiError) → length (next e t).writes ≤ n)
      → length (after_attempt a next t).writes ≤ n
  after_attempt-writes-le finished next n t h = omega arith
  after_attempt-writes-le (conflicted e) next n t h = h e

  -- A round of at most one write makes a loop of at most as many writes as rounds.
  pub retry-writes-le :
      (n : ℕ) (last : Option ApiError) (round : Action S Attempt) (s : S)
      → ((t : S) → length (round t).writes ≤ 1)
      → length (retry n last round s).writes ≤ n
  unfolding retry
  retry-writes-le zero last round s h = omega arith
  retry-writes-le (suc n) last round s h =
      let bound =
        >>=-writes-le round (λ a. after_attempt a (λ e. retry n (some e) round)) 1 n s (h s)
          (λ a t. after_attempt-writes-le a _ n t λ e. retry-writes-le n (some e) round t h) in
      omega (arith, bound)

  -- A round that finished left this state.
  abbrev pub FinishedAt : Action S Attempt → S → Type 0
  FinishedAt round end = (t : S) × ((round t).result ≡ ok finished) × ((round t).state ≡ end)

  after_attempt-FinishedAt :
      (round : Action S Attempt) (s : S) (a : Attempt) (next : ApiError → Action S (Unit {0}))
      {end : S}
      → (round s).result ≡ ok a
      → (after_attempt a next (round s).state).result ≡ ok tt
      → (after_attempt a next (round s).state).state ≡ end
      → ((e : ApiError) (t : S) → (next e t).result ≡ ok tt → FinishedAt round (next e t).state)
      → FinishedAt round end
  after_attempt-FinishedAt round s finished next p q r later = (s, p, r)
  after_attempt-FinishedAt round s (conflicted e) next p q r later =
      subst (FinishedAt round) r (later e (round s).state q)

  -- A return means that one of the rounds finished, and that nothing happened after it.
  pub retry-ok :
      (n : ℕ) (last : Option ApiError) (round : Action S Attempt) (s : S)
      → (retry n last round s).result ≡ ok tt
      → FinishedAt round (retry n last round s).state
  unfolding retry
  retry-ok zero last round s h = cc
  retry-ok (suc n) last round s h =
      let (a, p, q, r) = >>=-ok round _ s h in
      after_attempt-FinishedAt round s a _ p q r (λ e t. retry-ok n (some e) round t)
