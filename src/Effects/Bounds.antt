-- ===== src/Effects/Bounds.antt =====
-- How much a program sends, and what is known of the parts of a program that has returned.
use dynamic_device_scaler.Base.{
  Bool, true, false, if◌then◌else◌, ◌≡◌, refl, ℕ, ◌+◌, ◌≤◌, arith, length, length-append, String,
  List, [],
}
use dynamic_device_scaler.Kube.{Write}
use dynamic_device_scaler.Effects.World.{request, outcome_of}
use dynamic_device_scaler.Effects.Monad.{
  Reply, done, refused, Result, ok, err, panic, Action, wrap, wrap_result, continue, ◌>>=◌,
}

module _ {S A B : Type 0} where
  continue_writes-le :
      (r : Result A) (s : S) (w : List Write) (f : A → Action S B) (k n : ℕ)
      → length w ≤ k
      → ((a : A) (t : S) → length (f a t).writes ≤ n)
      → length (continue r s w f).writes ≤ k + n
  continue_writes-le (ok a) s w f k n hw hf =
      omega (arith, length-append {0} w (f a s).writes, hf a s)
  continue_writes-le (err e) s w f k n hw hf = omega arith
  continue_writes-le (panic m) s w f k n hw hf = omega arith

  pub >>=-writes-le :
      (m : Action S A) (f : A → Action S B) (k n : ℕ) (s : S)
      → length (m s).writes ≤ k
      → ((a : A) (t : S) → length (f a t).writes ≤ n)
      → length ((m >>= f) s).writes ≤ k + n
  >>=-writes-le m f k n s hm hf = continue_writes-le (m s).result (m s).state _ f k n hm hf

  continue_ok :
      (r : Result A) (s : S) (w : List Write) (f : A → Action S B) {b : B}
      → (continue r s w f).result ≡ ok b
      → (a : A) × (r ≡ ok a) × ((f a s).result ≡ ok b) × ((f a s).state ≡ (continue r s w f).state)
  continue_ok (ok a) s w f h = (a, refl, h, refl)
  continue_ok (err e) s w f h = cc
  continue_ok (panic m) s w f h = cc

  -- What a chain returns comes from both of its parts.
  pub >>=-ok :
      (m : Action S A) (f : A → Action S B) (s : S) {b : B}
      → ((m >>= f) s).result ≡ ok b
      → (a : A) × ((m s).result ≡ ok a)
        × ((f a (m s).state).result ≡ ok b)
        × ((f a (m s).state).state ≡ ((m >>= f) s).state)
  >>=-ok m f s h = continue_ok (m s).result (m s).state (m s).writes f h

outcome_of-writes : {S A : Type 0} (r : Reply A) (s : S) → length (outcome_of r s []).writes ≤ 0
outcome_of-writes (done a) s = omega arith
outcome_of-writes (refused e) s = omega arith

pub read-writes :
    {S A : Type 0} (text : String) (call : S → Reply A × S) (s : S)
    → length (wrap text (request call) s).writes ≤ 0
read-writes text call s = outcome_of-writes (call s).0 (call s).1

pub if-writes-le :
    {S A : Type 0} (b : Bool) (x y : Action S A) (n : ℕ) (s : S)
    → length (x s).writes ≤ n
    → length (y s).writes ≤ n
    → length ((if b then x else y) s).writes ≤ n
if-writes-le true x y n s hx hy = hx
if-writes-le false x y n s hx hy = hy

outcome_of-ok :
    {S A : Type 0} (text : String) (r : Reply A) (s : S) {a : A}
    → wrap_result text (outcome_of r s []).result ≡ ok a
    → (r ≡ done a) × ((outcome_of r s []).state ≡ s)
outcome_of-ok text (done b) s e = (cc, refl)
outcome_of-ok text (refused f) s e = cc

-- What a call that reads returned is the server's answer.
pub read-ok :
    {S A : Type 0} (text : String) (call : S → Reply A × S) (s : S) {a : A}
    → (wrap text (request call) s).result ≡ ok a
    → ((call s).0 ≡ done a) × ((wrap text (request call) s).state ≡ (call s).1)
read-ok text call s e = outcome_of-ok text (call s).0 (call s).1 e
