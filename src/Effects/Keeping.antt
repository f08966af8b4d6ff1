-- ===== src/Effects/Keeping.antt =====
-- A judgement on what a program leaves true of the cluster, whether it returns or fails.
use dynamic_device_scaler.Base.{String, List, [], ◌∷◌}
use dynamic_device_scaler.Kube.{Write}
use dynamic_device_scaler.Effects.Monad.{
  Result, ok, err, panic, Action, pure, wrap, continue, ◌>>=◌, for_each,
}
use dynamic_device_scaler.Effects.Rules.{OnOk}

pub record Keeps {S A : Type 0} (P : S → Type 0) (m : Action S A) : Type 0 where
  pub at : (s : S) → P s → P (m s).state

module _ {S A : Type 0} {P : S → Type 0} where
  pub pure-Keeps : (a : A) → Keeps P (pure a)
  pure-Keeps a = record { at = λ s h. h }

  pub wrap-Keeps : (t : String) (m : Action S A) → Keeps P m → Keeps P (wrap t m)
  wrap-Keeps t m h = record { at = h.at }

module _ {S A B : Type 0} {P : S → Type 0} {Q : A → Type 0} where
  continue-Keeps :
      (r : Result A) (s : S) (w : List Write) (f : A → Action S B)
      → P s
      → OnOk Q r
      → ((a : A) → Q a → Keeps P (f a))
      → P (continue r s w f).state
  continue-Keeps (ok a) s w f p q h = (h a q).at s p
  continue-Keeps (err e) s w f p q h = p
  continue-Keeps (panic m) s w f p q h = p

  pub >>=-Keeps :
      (m : Action S A) (f : A → Action S B)
      → Keeps P m
      → ((s : S) → OnOk Q (m s).result)
      → ((a : A) → Q a → Keeps P (f a))
      → Keeps P (m >>= f)
  >>=-Keeps m f hm q hf = record {
    at = λ s p. continue-Keeps (m s).result (m s).state (m s).writes f (hm.at s p) (q s) hf;
  }

module _ {S A B : Type 0} {P : S → Type 0} where
  continue-Keeps_any :
      (r : Result A) (s : S) (w : List Write) (f : A → Action S B)
      → P s
      → ((a : A) → Keeps P (f a))
      → P (continue r s w f).state
  continue-Keeps_any (ok a) s w f p h = (h a).at s p
  continue-Keeps_any (err e) s w f p h = p
  continue-Keeps_any (panic m) s w f p h = p

  pub then-Keeps :
      (m : Action S A) (f : A → Action S B)
      → Keeps P m
      → ((a : A) → Keeps P (f a))
      → Keeps P (m >>= f)
  then-Keeps m f hm hf = record {
    at = λ s p. continue-Keeps_any (m s).result (m s).state (m s).writes f (hm.at s p) hf;
  }

module _ {S A : Type 0} {P : S → Type 0} where
  pub for_each-Keeps :
      (xs : List A) (body : A → Action S (Unit {0}))
      → ((x : A) → Keeps P (body x))
      → Keeps P (for_each xs body)
  unfolding for_each
  for_each-Keeps [] body h = pure-Keeps tt
  for_each-Keeps (x ∷ xs) body h =
      then-Keeps (body x) (λ _. for_each xs body) (h x) (λ _. for_each-Keeps xs body h)
