-- ===== src/Effects/Rules.antt =====
-- A judgement on code that calls the cluster: every write that it sends satisfies P, and what it
-- returns satisfies Q, whatever the server answers and the other actors do. Errors and panics
-- return nothing.
use dynamic_device_scaler.Base.{
  Bool, true, false, if◌then◌else◌, ◌≡◌, refl, subst, Option, none, some, String, List, [], ◌∷◌,
  All, All-append, All-map_prop,
}
use dynamic_device_scaler.Kube.{Write}
use dynamic_device_scaler.Effects.World.{Environment, request, observe, send, outcome_of, OnDone}
use dynamic_device_scaler.Effects.Monad.{
  Reply, done, refused, Error, Result, ok, err, panic, Action, pure, fail, crash, lift, wrap,
  wrap_result, or_value, forget_error, continue, ◌>>=◌, for_each,
}

abbrev pub OnOk : {A : Type 0} → (A → Type 0) → Result A → Type 0
OnOk Q (ok a) = Q a
OnOk Q (err e) = Unit
OnOk Q (panic m) = Unit

pub record Ensures {S A : Type 0} (P : Write → Type 0) (Q : A → Type 0) (m : Action S A)
    : Type 0 where
  pub sends : (s : S) → All P (m s).writes
  pub returns : (s : S) → OnOk Q (m s).result

abbrev pub Always : {A : Type 0} → A → Type 0
Always a = Unit

wrap_result-OnOk :
    {A : Type 0} (Q : A → Type 0) (t : String) (r : Result A) → OnOk Q r → OnOk Q (wrap_result t r)
wrap_result-OnOk Q t (ok a) q = q
wrap_result-OnOk Q t (err e) q = tt
wrap_result-OnOk Q t (panic p) q = tt

module _ {S A : Type 0} {P : Write → Type 0} where
  pub pure-Ensures : {Q : A → Type 0} (a : A) → Q a → Ensures {S = S} P Q (pure a)
  pure-Ensures a q = record { sends = λ s. tt; returns = λ s. q }

  pub fail-Ensures : {Q : A → Type 0} (e : Error) → Ensures {S = S} {A = A} P Q (fail e)
  fail-Ensures e = record { sends = λ s. tt; returns = λ s. tt }

  pub crash-Ensures : {Q : A → Type 0} (m : String) → Ensures {S = S} {A = A} P Q (crash m)
  crash-Ensures m = record { sends = λ s. tt; returns = λ s. tt }

  pub lift-Ensures : {Q : A → Type 0} (r : Result A) → OnOk Q r → Ensures {S = S} P Q (lift r)
  lift-Ensures r q = record { sends = λ s. tt; returns = λ s. q }

  pub wrap-Ensures :
      {Q : A → Type 0} (t : String) (m : Action S A) → Ensures P Q m → Ensures P Q (wrap t m)
  wrap-Ensures {Q} t m h = record {
    sends = h.sends;
    returns = λ s. wrap_result-OnOk Q t (m s).result (h.returns s);
  }

  -- An error that is logged and forgotten.
  pub forget_error-Ensures :
      {Q : A → Type 0} (d : A) (m : Action S A)
      → Q d
      → Ensures P Q m
      → Ensures P Q (forget_error d m)
  forget_error-Ensures {Q} d m q h = record {
    sends = h.sends;
    returns = λ s. or_value-OnOk (m s).result (h.returns s);
  }
    where
      or_value-OnOk : (r : Result A) → OnOk Q r → OnOk Q (or_value d r)
      or_value-OnOk (ok a) p = p
      or_value-OnOk (err e) p = q
      or_value-OnOk (panic t) p = tt

  -- What is sent and returned, weakened.
  pub Ensures-weaken :
      {P' : Write → Type 0} {Q Q' : A → Type 0} {m : Action S A}
      → ((w : Write) → P w → P' w)
      → ((a : A) → Q a → Q' a)
      → Ensures P Q m
      → Ensures P' Q' m
  Ensures-weaken {Q} {Q'} {m} f g h = record {
    sends = λ s. All-map_prop (m s).writes f (h.sends s);
    returns = λ s. OnOk_map (m s).result (h.returns s);
  }
    where
      OnOk_map : (r : Result A) → OnOk Q r → OnOk Q' r
      OnOk_map (ok a) q = g a q
      OnOk_map (err e) q = tt
      OnOk_map (panic p) q = tt

module _ {S A B : Type 0} {P : Write → Type 0} {Q : A → Type 0} {R : B → Type 0} where
  continue_sends :
      (r : Result A) (s : S) (w : List Write) (f : A → Action S B)
      → OnOk Q r
      → All P w
      → ((a : A) → Q a → Ensures P R (f a))
      → All P (continue r s w f).writes
  continue_sends (ok a) s w f q p h = All-append P w _ p ((h a q).sends s)
  continue_sends (err e) s w f q p h = p
  continue_sends (panic m) s w f q p h = p

  continue_returns :
      (r : Result A) (s : S) (w : List Write) (f : A → Action S B)
      → OnOk Q r
      → ((a : A) → Q a → Ensures P R (f a))
      → OnOk R (continue r s w f).result
  continue_returns (ok a) s w f q h = (h a q).returns s
  continue_returns (err e) s w f q h = tt
  continue_returns (panic m) s w f q h = tt

  -- The rule for `m >>= f`, with what `m` returns in hand for `f`.
  pub >>=-Ensures :
      (m : Action S A) (f : A → Action S B)
      → Ensures P Q m
      → ((a : A) → Q a → Ensures P R (f a))
      → Ensures P R (m >>= f)
  >>=-Ensures m f hm hf = record {
    sends =
        λ s. continue_sends (m s).result (m s).state (m s).writes f (hm.returns s) (hm.sends s) hf;
    returns = λ s. continue_returns (m s).result (m s).state (m s).writes f (hm.returns s) hf;
  }

module _ {S A : Type 0} {P : Write → Type 0} where
  pub for_each-Ensures :
      (xs : List A) (body : A → Action S (Unit {0}))
      → All (λ x. Ensures P Always (body x)) xs
      → Ensures P Always (for_each xs body)
  unfolding for_each
  for_each-Ensures [] body h = pure-Ensures tt tt
  for_each-Ensures (x ∷ xs) body h =
      >>=-Ensures {Q = Always} (body x) (λ _. for_each xs body) h.0
        (λ _ _. for_each-Ensures xs body h.1)

outcome_of-sends :
    {S A : Type 0} (P : Write → Type 0) (r : Reply A) (s : S) → All P (outcome_of r s []).writes
outcome_of-sends P (done a) s = tt
outcome_of-sends P (refused e) s = tt

outcome_of-returns :
    {S A : Type 0} (Q : A → Type 0) (r : Reply A) (s : S)
    → OnDone Q r
    → OnOk Q (outcome_of r s []).result
outcome_of-returns Q (done a) s q = q
outcome_of-returns Q (refused e) s q = tt

module _ {S A : Type 0} {P : Write → Type 0} {Q : A → Type 0} where
  -- A call that reads sends nothing and returns what the server promises.
  pub request-Ensures :
      (call : S → Reply A × S) → ((s : S) → OnDone Q (call s).0) → Ensures P Q (request call)
  request-Ensures call h = record {
    sends = λ s. outcome_of-sends P (call s).0 (call s).1;
    returns = λ s. outcome_of-returns Q (call s).0 (call s).1 (h s);
  }

  pub observe-Ensures : (call : S → A × S) → ((s : S) → Q (call s).0) → Ensures P Q (observe call)
  observe-Ensures call h = record { sends = λ s. tt; returns = h }

OnDone-Always : {A : Type 0} (r : Reply A) → OnDone Always r
OnDone-Always (done a) = tt
OnDone-Always (refused e) = tt

-- A call of which nothing is promised.
pub read-Ensures :
    {S A : Type 0} {P : Write → Type 0} (text : String) (call : S → Reply A × S)
    → Ensures P Always (wrap text (request call))
read-Ensures text call =
    wrap-Ensures text (request call) (request-Ensures call (λ s. OnDone-Always (call s).0))

pub send-Ensures :
    (env : Environment) {P : Write → Type 0} (w : Write) → P w → Ensures P Always (send env w)
send-Ensures env w p = record { sends = λ s. (p, tt); returns = λ s. tt }

module _ {S A : Type 0} {P : Write → Type 0} {Q : A → Type 0} where
  -- What is known of a value that was returned.
  pub Ensures-ok : (m : Action S A) (s : S) {a : A} → Ensures P Q m → (m s).result ≡ ok a → Q a
  Ensures-ok m s h e = subst (OnOk Q) e (h.returns s)

pub if-Ensures :
    {S A : Type 0} {P : Write → Type 0} {Q : A → Type 0} (b : Bool) (x y : Action S A)
    → Ensures P Q x
    → Ensures P Q y
    → Ensures P Q (if b then x else y)
if-Ensures true x y hx hy = hx
if-Ensures false x y hx hy = hy

-- A test whose answer the branches may use.
pub test-Ensures :
    {S A : Type 0} {P : Write → Type 0} {Q : A → Type 0} (b : Bool) (x y : Action S A)
    → (b ≡ true → Ensures P Q x)
    → (b ≡ false → Ensures P Q y)
    → Ensures P Q (elim b [ false ↦ y | true ↦ x ])
test-Ensures true x y hx hy = hx refl
test-Ensures false x y hx hy = hy refl

pub option-Ensures :
    {S A B : Type 0} {P : Write → Type 0} {Q : B → Type 0} (o : Option A) (x : Action S B)
    (f : A → Action S B)
    → (o ≡ none → Ensures P Q x)
    → ((a : A) → o ≡ some a → Ensures P Q (f a))
    → Ensures P Q (elim o [ none ↦ x | some a ↦ f a ])
option-Ensures none x f hx hf = hx refl
option-Ensures (some a) x f hx hf = hf a refl

pub branch-Ensures :
    {S A : Type 0} {P : Write → Type 0} {Q : A → Type 0} (b : Bool) (x y : Action S A)
    → (b ≡ true → Ensures P Q x)
    → (b ≡ false → Ensures P Q y)
    → Ensures P Q (if b then x else y)
branch-Ensures true x y hx hy = hx refl
branch-Ensures false x y hx hy = hy refl

-- A result of which nothing is known.
pub lifted-Ensures :
    {S A : Type 0} {P : Write → Type 0} (r : Result A) → Ensures {S = S} P Always (lift r)
lifted-Ensures (ok a) = lift-Ensures (ok a) tt
lifted-Ensures (err e) = lift-Ensures (err e) tt
lifted-Ensures (panic m) = lift-Ensures (panic m) tt
