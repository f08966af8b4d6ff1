-- ===== src/Effects/Calls.antt =====
-- Code as a sequence of calls: how the state of the cluster moves at each call of the environment,
-- and a judgement that a program does nothing else and never panics.
use dynamic_device_scaler.Base.{
  Bool, true, false, if◌then◌else◌, ◌≡◌, refl, Text, Option, none, some, String, List, [], ◌∷◌,
  ◌++◌,
}
use dynamic_device_scaler.Kube.{Write}
use dynamic_device_scaler.Effects.Results.{Returns, Any}
use dynamic_device_scaler.Effects.World.{Environment, Program, request, observe, send, outcome_of}
use dynamic_device_scaler.Effects.Monad.{
  Reply, done, refused, Error, Result, ok, err, panic, pure, fail, lift, wrap, wrap_result,
  or_value, forget_error, continue, ◌>>=◌, for_each,
}

module _ (env : Environment) where
  -- A call that reads, and the state that it leaves. Other actors may have changed the cluster.
  pub data Moves (s t : env.State) : Type 0 where
    lists_claims : (env.list_claims s).1 ≡ t → Moves s t
    lists_slices : (env.list_slices s).1 ≡ t → Moves s t
    lists_nodes : (env.list_nodes s).1 ≡ t → Moves s t
    lists_requests : (env.list_requests s).1 ≡ t → Moves s t
    lists_resources : (env.list_resources s).1 ≡ t → Moves s t
    gets_config_map :
        (namespace name : Text) → (env.get_config_map namespace name s).1 ≡ t → Moves s t
    gets_claim : (name namespace : Text) → (env.get_claim name namespace s).1 ≡ t → Moves s t
    gets_request : (name : Text) → (env.get_request name s).1 ≡ t → Moves s t
    gets_resource : (name : Text) → (env.get_resource name s).1 ≡ t → Moves s t
    reads_clock : (env.now s).1 ≡ t → Moves s t
    ranges : (keys : List Text) → (env.range_keys keys s).1 ≡ t → Moves s t

  -- Calls one after another, with the writes among them.
  pub data Trace : env.State → List Write → env.State → Type 0 where
    here : {s : env.State} → Trace s [] s
    reads : {s t u : env.State} {w : List Write} → Moves s t → Trace t w u → Trace s w u
    writes :
        {s t u : env.State} {ws : List Write} (w : Write)
        → (env.submit w s).1 ≡ t
        → Trace t ws u
        → Trace s (w ∷ ws) u

  pub Trace-append :
      {s t u : env.State} {v w : List Write} → Trace s v t → Trace t w u → Trace s (v ++ w) u
  Trace-append here r = r
  Trace-append (reads m q) r = reads m (Trace-append q r)
  Trace-append (writes w e q) r = writes w e (Trace-append q r)

-- The program is a sequence of calls, whatever they answer, and it ends with a value that
-- satisfies Q or with an error, never with a panic.
pub record Runs (env : Environment) {A : Type 0} (Q : A → Type 0) (m : Program env A) : Type 0 where
  pub traced : (s : env.State) → Trace env s (m s).writes (m s).state
  pub ends : (s : env.State) → Returns Q (m s).result

Returns-wrap :
    {A : Type 0} (Q : A → Type 0) (t : String) (r : Result A)
    → Returns Q r
    → Returns Q (wrap_result t r)
Returns-wrap Q t (ok a) h = h
Returns-wrap Q t (err e) h = tt
Returns-wrap Q t (panic m) h = h

Returns-or_value : {A : Type 0} (d : A) (r : Result A) → Returns Any r → Returns Any (or_value d r)
Returns-or_value d (ok a) h = tt
Returns-or_value d (err e) h = tt
Returns-or_value d (panic m) h = h

module _ {env : Environment} {A : Type 0} where
  pub pure-Runs : {Q : A → Type 0} (a : A) → Q a → Runs env Q (pure a)
  pure-Runs a q = record { traced = λ s. here; ends = λ s. q }

  pub fail-Runs : {Q : A → Type 0} (e : Error) → Runs env Q (fail e)
  fail-Runs e = record { traced = λ s. here; ends = λ s. tt }

  pub lift-Runs : {Q : A → Type 0} (r : Result A) → Returns Q r → Runs env Q (lift r)
  lift-Runs r h = record { traced = λ s. here; ends = λ s. h }

  pub wrap-Runs :
      {Q : A → Type 0} (t : String) (m : Program env A) → Runs env Q m → Runs env Q (wrap t m)
  wrap-Runs {Q} t m h = record {
    traced = h.traced;
    ends = λ s. Returns-wrap Q t (m s).result (h.ends s);
  }

  pub forget_error-Runs :
      (d : A) (m : Program env A) → Runs env Any m → Runs env Any (forget_error d m)
  forget_error-Runs d m h = record {
    traced = h.traced;
    ends = λ s. Returns-or_value d (m s).result (h.ends s);
  }

module _ {env : Environment} {A B : Type 0} {Q : A → Type 0} {R : B → Type 0} where
  continue-Trace :
      {s t : env.State} (r : Result A) (w : List Write) (f : A → Program env B)
      → Trace env s w t
      → Returns Q r
      → ((a : A) → Q a → Runs env R (f a))
      → Trace env s (continue r t w f).writes (continue r t w f).state
  continue-Trace {t} (ok a) w f c q h = Trace-append env c ((h a q).traced t)
  continue-Trace (err e) w f c q h = c
  continue-Trace (panic m) w f c q h = absurd q

  continue-Returns :
      (r : Result A) (t : env.State) (w : List Write) (f : A → Program env B)
      → Returns Q r
      → ((a : A) → Q a → Runs env R (f a))
      → Returns R (continue r t w f).result
  continue-Returns (ok a) t w f q h = (h a q).ends t
  continue-Returns (err e) t w f q h = tt
  continue-Returns (panic m) t w f q h = q

  -- The rule for `m >>= f`.
  pub >>=-Runs :
      (m : Program env A) (f : A → Program env B)
      → Runs env Q m
      → ((a : A) → Q a → Runs env R (f a))
      → Runs env R (m >>= f)
  >>=-Runs m f hm hf = record {
    traced = λ s. continue-Trace (m s).result (m s).writes f (hm.traced s) (hm.ends s) hf;
    ends = λ s. continue-Returns (m s).result (m s).state (m s).writes f (hm.ends s) hf;
  }

reply-Returns :
    {S A : Type 0} (Q : A → Type 0) (r : Reply A) (t : S)
    → ((a : A) → r ≡ done a → Q a)
    → Returns Q (outcome_of r t []).result
reply-Returns Q (done a) t h = h a refl
reply-Returns Q (refused e) t h = tt

module _ {env : Environment} where
  pub for_each-Runs :
      {A : Type 0} (xs : List A) (body : A → Program env (Unit {0}))
      → ((x : A) → Runs env Any (body x))
      → Runs env Any (for_each xs body)
  unfolding for_each
  for_each-Runs [] body h = pure-Runs tt tt
  for_each-Runs (x ∷ xs) body h =
      >>=-Runs {Q = Any} (body x) (λ _. for_each xs body) (h x) (λ _ _. for_each-Runs xs body h)

  reply-Trace :
      {A : Type 0} {s : env.State} (r : Reply A) (t : env.State)
      → Moves env s t
      → Trace env s (outcome_of r t []).writes (outcome_of r t []).state
  reply-Trace (done a) t m = reads m here
  reply-Trace (refused e) t m = reads m here

  module _ {A : Type 0} where
    pub if-Runs :
        (b : Bool) (x y : Program env A)
        → Runs env Any x
        → Runs env Any y
        → Runs env Any (if b then x else y)
    if-Runs true x y hx hy = hx
    if-Runs false x y hx hy = hy

    pub test-Runs :
        (b : Bool) (x y : Program env A)
        → Runs env Any x
        → Runs env Any y
        → Runs env Any (elim b [ false ↦ y | true ↦ x ])
    test-Runs true x y hx hy = hx
    test-Runs false x y hx hy = hy

    pub option-Runs :
        {B : Type 0} (o : Option B) (x : Program env A) (f : B → Program env A)
        → Runs env Any x
        → ((b : B) → Runs env Any (f b))
        → Runs env Any (elim o [ none ↦ x | some b ↦ f b ])
    option-Runs none x f hx hf = hx
    option-Runs (some b) x f hx hf = hf b

module _ (env : Environment) where
  -- A call that reads, of whose answer something is promised.
  pub answer-Runs :
      {A : Type 0} {Q : A → Type 0} (text : String) (call : env.State → Reply A × env.State)
      → ((s : env.State) → Moves env s (call s).1)
      → ((s : env.State) (a : A) → (call s).0 ≡ done a → Q a)
      → Runs env Q (wrap text (request call))
  answer-Runs {Q} text call h q = wrap-Runs text (request call) (record {
    traced = λ s. reply-Trace (call s).0 (call s).1 (h s);
    ends = λ s. reply-Returns Q (call s).0 (call s).1 (q s);
  })

  pub read-Runs :
      {A : Type 0} (text : String) (call : env.State → Reply A × env.State)
      → ((s : env.State) → Moves env s (call s).1)
      → Runs env Any (wrap text (request call))
  read-Runs text call h = answer-Runs text call h (λ s a e. tt)

  pub observe-Runs :
      {A : Type 0} (call : env.State → A × env.State)
      → ((s : env.State) → Moves env s (call s).1)
      → Runs env Any (observe call)
  observe-Runs call h = record { traced = λ s. reads (h s) here; ends = λ s. tt }

  pub now-Runs : Runs env Any (observe env.now)
  now-Runs = observe-Runs env.now (λ s. reads_clock refl)

  pub range-Runs : (keys : List Text) → Runs env Any (observe (env.range_keys keys))
  range-Runs keys = observe-Runs (env.range_keys keys) (λ s. ranges keys refl)

  pub send-Runs : (w : Write) → Runs env Any (send env w)
  send-Runs w = record { traced = λ s. writes w refl here; ends = λ s. tt }
