-- ===== src/Effects/Monad.antt =====
-- Code that calls the cluster: it threads a state that other actors may change at each call, it
-- returns, fails with an `error` or panics, and it leaves the list of the writes that it sent.
use dynamic_device_scaler.Base.{String, Option, List, [], ◌∷◌, ◌++◌}
use dynamic_device_scaler.Kube.{Write}

-- What apierrors.IsConflict tells apart.
pub data ApiError : Type 0 where
  conflict : ApiError
  other : String → ApiError

-- An answer of the API server.
pub data Reply (A : Type 0) : Type 0 where
  done : A → Reply A
  refused : ApiError → Reply A

-- `fmt.Errorf` around an error, with the text before the `%v` or `%w`.
pub data Error : Type 0 where
  api : ApiError → Error
  message : String → Error
  wrapped : String → Error → Error
  max_retries_reached : Option ApiError → Error

pub data Result (A : Type 0) : Type 0 where
  ok : A → Result A
  err : Error → Result A
  panic : String → Result A

pub record Outcome (S : Type 0) (A : Type 0) : Type 0 where
  pub result : Result A
  pub state : S
  pub writes : List Write

abbrev pub Action : Type 0 → Type 0 → Type 0
Action S A = S → Outcome S A

abbrev pub wrap_result : {A : Type 0} → String → Result A → Result A
wrap_result m (ok a) = ok a
wrap_result m (err e) = err (wrapped m e)
wrap_result m (panic p) = panic p

module _ {S A : Type 0} where
  abbrev pub pure : A → Action S A
  pure a s = record { result = ok a; state = s; writes = [] }

  abbrev pub fail : Error → Action S A
  fail e s = record { result = err e; state = s; writes = [] }

  abbrev pub crash : String → Action S A
  crash m s = record { result = panic m; state = s; writes = [] }

  -- A value computed without the cluster.
  abbrev pub lift : Result A → Action S A
  lift r s = record { result = r; state = s; writes = [] }

  -- `if err != nil { return fmt.Errorf(m + ": %v", err) }`
  abbrev pub wrap : String → Action S A → Action S A
  wrap m x s = let o = x s in record o { result = wrap_result m o.result }

abbrev pub or_value : {A : Type 0} → A → Result A → Result A
or_value d (ok a) = ok a
or_value d (err e) = ok d
or_value d (panic p) = panic p

module _ {S A : Type 0} where
  -- An error that the caller logs and forgets: it goes on with the value that came with it.
  abbrev pub forget_error : A → Action S A → Action S A
  forget_error d x s = let o = x s in record o { result = or_value d o.result }

module _ {S A B : Type 0} where
  abbrev pub continue : Result A → S → List Write → (A → Action S B) → Outcome S B
  continue (ok a) s w f =
      let o = f a s in record { result = o.result; state = o.state; writes = w ++ o.writes }
  continue (err e) s w f = record { result = err e; state = s; writes = w }
  continue (panic m) s w f = record { result = panic m; state = s; writes = w }

  infixl 5 ◌>>=◌ ◌>>◌
  abbrev pub ◌>>=◌ : Action S A → (A → Action S B) → Action S B
  m >>= f = λ s. let o = m s in continue o.result o.state o.writes f

  abbrev pub ◌>>◌ : Action S A → Action S B → Action S B
  m >> n = m >>= λ _. n

-- `for _, x := range xs { … }` with a body that may return early with an error.
unfoldable pub for_each : {S A : Type 0} → List A → (A → Action S (Unit {0})) → Action S (Unit {0})
for_each [] body = pure tt
for_each (x ∷ xs) body = body x >> for_each xs body
