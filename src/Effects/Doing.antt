-- ===== src/Effects/Doing.antt =====
-- A judgement on what a program that has returned has done: a write that the server has taken in
-- the course of its calls, or a reason why there is none.
use dynamic_device_scaler.Base.{
  Bool, true, false, if◌then◌else◌, ◌≡◌, refl, subst, String, List, [], ◌∷◌, ◌++◌, All,
}
use dynamic_device_scaler.Kube.{Write}
use dynamic_device_scaler.Effects.Results.{Any, ok-injective}
use dynamic_device_scaler.Effects.World.{Environment, Program}
use dynamic_device_scaler.Effects.Monad.{
  done, Error, Result, ok, err, panic, pure, fail, wrap, wrap_result, continue, ◌>>=◌, for_each,
}
use dynamic_device_scaler.Effects.Rules.{Ensures, Ensures-ok}
use dynamic_device_scaler.Effects.Calls.{
  Moves, Trace, here, reads, writes, Runs, Trace-append, for_each-Runs,
}

-- The calls lead from one state to the other.
abbrev pub Leads : (env : Environment) → env.State → env.State → Type 0
Leads env s t = (ws : List Write) × Trace env s ws t

pub Leads-trans :
    (env : Environment) {s t u : env.State} → Leads env s t → Leads env t u → Leads env s u
Leads-trans env (v, c) (w, d) = (_, Trace-append env c d)

-- Among the calls, the server took the write.
pub data Took (env : Environment) (w : Write) : env.State → List Write → env.State → Type 0 where
  at_once :
      {s t u : env.State} {ws : List Write}
      → env.submit w s ≡ (done tt, t)
      → Trace env t ws u
      → Took env w s (w ∷ ws) u
  after_read :
      {s t u : env.State} {ws : List Write} → Moves env s t → Took env w t ws u → Took env w s ws u
  after_write :
      {s t u : env.State} {ws : List Write} (v : Write)
      → (env.submit v s).1 ≡ t
      → Took env w t ws u
      → Took env w s (v ∷ ws) u

module _ {env : Environment} {w : Write} where
  pub Took-later :
      {s t u : env.State} {vs ws : List Write}
      → Trace env s vs t
      → Took env w t ws u
      → Took env w s (vs ++ ws) u
  Took-later here k = k
  Took-later (reads m c) k = after_read m (Took-later c k)
  Took-later (writes v e c) k = after_write v e (Took-later c k)

  pub Took-before :
      {s t u : env.State} {vs ws : List Write}
      → Took env w s vs t
      → Trace env t ws u
      → Took env w s (vs ++ ws) u
  Took-before (at_once e c) d = at_once e (Trace-append env c d)
  Took-before (after_read m k) d = after_read m (Took-before k d)
  Took-before (after_write v e k) d = after_write v e (Took-before k d)

-- A write that satisfies P was taken, or there was no need.
pub data Done (env : Environment) (NoNeed : Type 0) (P : Write → Type 0) (s : env.State)
    (ws : List Write) (t : env.State) : Type 0 where
  idle : NoNeed → Done env NoNeed P s ws t
  took : (w : Write) → P w → Took env w s ws t → Done env NoNeed P s ws t

module _ {env : Environment} {N : Type 0} {P : Write → Type 0} where
  pub Done-later :
      {s t u : env.State} {vs ws : List Write}
      → Trace env s vs t
      → Done env N P t ws u
      → Done env N P s (vs ++ ws) u
  Done-later c (idle n) = idle n
  Done-later c (took w p k) = took w p (Took-later c k)

  pub Done-before :
      {s t u : env.State} {vs ws : List Write}
      → Done env N P s vs t
      → Trace env t ws u
      → Done env N P s (vs ++ ws) u
  Done-before (idle n) c = idle n
  Done-before (took w p k) c = took w p (Took-before k c)

  pub Done-weaken :
      {N' : Type 0} {P' : Write → Type 0} {s t : env.State} {ws : List Write}
      → (N → N')
      → ((w : Write) → P w → P' w)
      → Done env N P s ws t
      → Done env N' P' s ws t
  Done-weaken f g (idle n) = idle (f n)
  Done-weaken f g (took w p k) = took w (g w p) k

-- Where the program starts in a state that the calls lead to from s0, and returns a value, a write
-- that satisfies P was taken or N holds of the value.
pub record Does (env : Environment) (s0 : env.State) {A : Type 0} (N : A → Type 0)
    (P : Write → Type 0) (m : Program env A) : Type 0 where
  pub at :
      (s : env.State) (a : A)
      → Leads env s0 s
      → (m s).result ≡ ok a
      → Done env (N a) P s (m s).writes (m s).state

-- A value that the program returns in some state that the calls lead to from s0.
abbrev pub Answers :
    (env : Environment) (s0 : env.State) → {A : Type 0} → Program env A → A → Type 0
Answers env s0 m a = (s : env.State) × Leads env s0 s × ((m s).result ≡ ok a)

pub wrap_result-ok :
    {A : Type 0} (t : String) (r : Result A) (a : A) → wrap_result t r ≡ ok a → r ≡ ok a
wrap_result-ok t (ok b) a h = h
wrap_result-ok t (err e) a h = cc
wrap_result-ok t (panic p) a h = cc

module _ {env : Environment} {s0 : env.State} {A : Type 0} {P : Write → Type 0} where
  pub Answers-Does : (m : Program env A) → Does env s0 (Answers env s0 m) P m
  Answers-Does m = record { at = λ s a l e. idle (s, l, e) }

  pub Ensures-Does :
      {P' : Write → Type 0} {Q : A → Type 0} (m : Program env A)
      → Ensures P' Q m
      → Does env s0 Q P m
  Ensures-Does m h = record { at = λ s a l e. idle (Ensures-ok m s h e) }

  pub fail-Does : {N : A → Type 0} (e : Error) → Does env s0 N P (fail e)
  fail-Does e = record { at = λ s a l h. cc }

  pub Does-weaken :
      {N N' : A → Type 0} {P' : Write → Type 0} (m : Program env A)
      → ((a : A) → N a → N' a)
      → ((w : Write) → P w → P' w)
      → Does env s0 N P m
      → Does env s0 N' P' m
  Does-weaken m f g h = record { at = λ s a l e. Done-weaken (f a) g (h.at s a l e) }

  pub wrap-Does :
      {N : A → Type 0} (t : String) (m : Program env A)
      → Does env s0 N P m
      → Does env s0 N P (wrap t m)
  wrap-Does t m h = record { at = λ s a l e. h.at s a l (wrap_result-ok t (m s).result a e) }

pub branch-Does :
    {env : Environment} {s0 : env.State} {A : Type 0} {N : A → Type 0} {P : Write → Type 0}
    (b : Bool) (x y : Program env A)
    → (b ≡ true → Does env s0 N P x)
    → (b ≡ false → Does env s0 N P y)
    → Does env s0 N P (if b then x else y)
branch-Does true x y hx hy = hx refl
branch-Does false x y hx hy = hy refl

pub pure-Does :
    {env : Environment} {s0 : env.State} {A : Type 0} {P : Write → Type 0} {N : A → Type 0} (a : A)
    → N a
    → Does env s0 N P (pure a)
pure-Does {N} a n = record { at = λ s b l e. idle (subst N (ok-injective a b e) n) }

module _ {env : Environment} {s0 : env.State} {A B : Type 0} {N : A → Type 0} {N' : B → Type 0}
    {P : Write → Type 0} where
  continue-Done :
      {s t : env.State} (r : Result A) (ws : List Write) (f : A → Program env B) (b : B)
      → (continue r t ws f).result ≡ ok b
      → Leads env s0 s
      → Trace env s ws t
      → ((a : A) → r ≡ ok a → Done env (N a) P s ws t)
      → ((a : A) → Runs env Any (f a))
      → ((a : A) → N a → Does env s0 N' P (f a))
      → Done env (N' b) P s (continue r t ws f).writes (continue r t ws f).state
  continue-Done {s} {t} (ok a) ws f b e l c h runs next = after_first (h a refl)
    where
      after_first :
          Done env (N a) P s ws t → Done env (N' b) P s (ws ++ (f a t).writes) (f a t).state
      after_first (idle n) = Done-later c ((next a n).at t b (Leads-trans env l (ws, c)) e)
      after_first (took w p k) = took w p (Took-before k ((runs a).traced t))
  continue-Done (err x) ws f b e l c h runs next = cc
  continue-Done (panic x) ws f b e l c h runs next = cc

  -- The rule for `m >>= f`: the write of m, or that of f in the cases in which m has none.
  pub >>=-Does :
      (m : Program env A) (f : A → Program env B)
      → Runs env Any m
      → ((a : A) → Runs env Any (f a))
      → Does env s0 N P m
      → ((a : A) → N a → Does env s0 N' P (f a))
      → Does env s0 N' P (m >>= f)
  >>=-Does m f traced runs h next = record {
    at = λ s b l e.
        continue-Done (m s).result (m s).writes f b e l (traced.traced s) (λ a. h.at s a l) runs
          next;
  }

module _ (env : Environment) {A : Type 0} (N : A → Type 0) (P : A → Write → Type 0) where
  -- What is done for each element in the course of the whole loop.
  abbrev pub AllDone : List A → env.State → List Write → env.State → Type 0
  AllDone xs s ws t = All (λ x. Done env (N x) (P x) s ws t) xs

  AllDone-later :
      (xs : List A) {s t : env.State} (u : env.State) {vs : List Write} (ws : List Write)
      → Trace env s vs t
      → AllDone xs t ws u
      → AllDone xs s (vs ++ ws) u
  AllDone-later [] u ws c h = tt
  AllDone-later (x ∷ xs) u ws c h = (Done-later c h.0, AllDone-later xs u ws c h.1)

  continue-AllDone :
      (x : A) (xs : List A) (rest : Program env (Unit {0})) {s t : env.State}
      (r : Result (Unit {0})) (ws : List Write)
      → let o = continue r t ws (λ _. rest) in
        o.result ≡ ok tt
        → Trace env s ws t
        → Trace env t (rest t).writes (rest t).state
        → (r ≡ ok tt → Done env (N x) (P x) s ws t)
        → ((rest t).result ≡ ok tt → AllDone xs t (rest t).writes (rest t).state)
        → AllDone (x ∷ xs) s o.writes o.state
  continue-AllDone x xs rest {t} (ok a) ws e c d h later =
      (Done-before (h refl) d, AllDone-later xs (rest t).state (rest t).writes c (later e))
  continue-AllDone x xs rest (err y) ws e c d h later = cc
  continue-AllDone x xs rest (panic y) ws e c d h later = cc

  pub for_each-AllDone :
      {s0 : env.State} (xs : List A) (body : A → Program env (Unit {0}))
      → ((x : A) → Runs env Any (body x))
      → ((x : A) → Does env s0 (λ _. N x) (P x) (body x))
      → (s : env.State) → Leads env s0 s
      → (for_each xs body s).result ≡ ok tt
      → AllDone xs s (for_each xs body s).writes (for_each xs body s).state
  unfolding for_each
  for_each-AllDone [] body runs does s l e = tt
  for_each-AllDone (x ∷ xs) body runs does s l e =
      let o = body x s in
      let later = Leads-trans env l (o.writes, (runs x).traced s) in
      let rest = for_each xs body in
      continue-AllDone x xs rest o.result o.writes e ((runs x).traced s)
        ((for_each-Runs xs body runs).traced o.state) ((does x).at s tt l)
        (for_each-AllDone xs body runs does o.state later)
