-- ===== src/Effects/Results.antt =====
-- Chains of results of functions that do not call the cluster.
use dynamic_device_scaler.Base.{Bool, true, false, if◌then◌else◌, ◌≡◌, refl, ap, ◌⊎◌, inl, inr}
use dynamic_device_scaler.Effects.Monad.{Result, ok, err, panic}

infixl 5 ◌>>=◌
abbrev pub ◌>>=◌ : {A B : Type 0} → Result A → (A → Result B) → Result B
ok a >>= f = f a
err e >>= f = err e
panic m >>= f = panic m

abbrev pub or_default : {A : Type 0} → A → Result A → A
or_default d (ok a) = a
or_default d (err e) = d
or_default d (panic m) = d

pub ok-injective : {A : Type 0} (a b : A) → ok a ≡ ok b → a ≡ b
ok-injective a b h = ap (or_default a) h

-- What a chain returns comes from both of its parts.
pub result_bind :
    {A B : Type 0} (r : Result A) (f : A → Result B) {b : B}
    → (r >>= f) ≡ ok b
    → (a : A) × (r ≡ ok a) × (f a ≡ ok b)
result_bind (ok a) f h = (a, refl, h)
result_bind (err e) f h = cc
result_bind (panic m) f h = cc

-- The branch that was taken.
pub if_cases :
    {A : Type 0} (b : Bool) (x y : Result A) {a : A}
    → (if b then x else y) ≡ ok a
    → ((b ≡ true) × (x ≡ ok a)) ⊎ ((b ≡ false) × (y ≡ ok a))
if_cases true x y h = inl (refl, h)
if_cases false x y h = inr (refl, h)

-- What is returned satisfies Q, or there is an error. There is no panic.
abbrev pub Returns : {A : Type 0} → (A → Type 0) → Result A → Type 0
Returns Q (ok a) = Q a
Returns Q (err e) = Unit
Returns Q (panic m) = ⊥

abbrev pub Any : {A : Type 0} → A → Type 0
Any a = Unit

pub >>=-Returns :
    {A B : Type 0} (Q : A → Type 0) (R : B → Type 0) (r : Result A) (f : A → Result B)
    → Returns Q r
    → ((a : A) → Q a → Returns R (f a))
    → Returns R (r >>= f)
>>=-Returns Q R (ok a) f q h = h a q
>>=-Returns Q R (err e) f q h = tt
>>=-Returns Q R (panic m) f q h = q

pub if-Returns :
    {A : Type 0} (Q : A → Type 0) (b : Bool) (x y : Result A)
    → Returns Q x
    → Returns Q y
    → Returns Q (if b then x else y)
if-Returns Q true x y hx hy = hx
if-Returns Q false x y hx hy = hy
