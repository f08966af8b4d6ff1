-- ===== src/Effects/Parts.antt =====
-- A program that ran in the course of a larger one: where it started, what it returned, and that
-- the calls of the environment lead there from the start and from its end to the end.
use dynamic_device_scaler.Base.{◌≡◌, sym, String, List, [], ◌∷◌, All, subst}
use dynamic_device_scaler.Effects.Results.{Any}
use dynamic_device_scaler.Effects.World.{Environment, Program}
use dynamic_device_scaler.Effects.Monad.{ok, wrap, ◌>>=◌, for_each}
use dynamic_device_scaler.Effects.Bounds.{>>=-ok}
use dynamic_device_scaler.Effects.Calls.{here, Runs, for_each-Runs}
use dynamic_device_scaler.Effects.Doing.{Leads, Leads-trans, wrap_result-ok}

pub record Within (env : Environment) {A : Type 0} (m : Program env A) (a : A) (s u : env.State)
    : Type 0 where
  pub at : env.State
  pub before : Leads env s at
  pub returned : (m at).result ≡ ok a
  pub after : Leads env (m at).state u

module _ (env : Environment) {A : Type 0} where
  pub whole-Within :
      (m : Program env A) (s : env.State) (a : A)
      → (m s).result ≡ ok a
      → Within env m a s (m s).state
  whole-Within m s a e = record { at = s; before = ([], here); returned = e; after = ([], here) }

  pub wrap-Within :
      {s u : env.State} (t : String) (m : Program env A) (a : A)
      → Within env (wrap t m) a s u
      → Within env m a s u
  wrap-Within t m a w = record {
    at = w.at;
    before = w.before;
    returned = wrap_result-ok t (m w.at).result a w.returned;
    after = w.after;
  }

  -- Both parts of a chain ran.
  pub >>=-Within :
      {B : Type 0} {s u : env.State} (m : Program env A) (f : A → Program env B) (b : B)
      → Runs env Any m
      → ((a : A) → Runs env Any (f a))
      → Within env (m >>= f) b s u
      → (a : A) × Within env m a s u × Within env (f a) b s u
  >>=-Within {u} m f b hm hf w =
      let (a, p, q, r) = >>=-ok m f w.at w.returned in
      let t = (m w.at).state in
      let first : Leads env w.at t = ((m w.at).writes, hm.traced w.at) in
      let second : Leads env t (f a t).state = ((f a t).writes, (hf a).traced t) in
      let after = subst (λ x. Leads env x u) (sym r) w.after in
      (
        a,
        record { at = w.at; before = w.before; returned = p; after = Leads-trans env second after },
        record { at = t; before = Leads-trans env w.before first; returned = q; after = after },
      )

-- The body of a loop ran for each element.
pub for_each-Within :
    {env : Environment} {A : Type 0} {s u : env.State} (xs : List A)
    (body : A → Program env (Unit {0}))
    → ((x : A) → Runs env Any (body x))
    → Within env (for_each xs body) tt s u
    → All (λ x. Within env (body x) tt s u) xs
unfolding for_each
for_each-Within [] body runs w = tt
for_each-Within (x ∷ xs) body runs w =
    let (_, first, rest) =
      >>=-Within _ (body x) (λ _. for_each xs body) tt (runs x) (λ _. for_each-Runs xs body runs)
        w in
    (first, for_each-Within xs body runs rest)
