-- ===== src/Collect/Claims/Pools.antt =====
-- Which device name stands in the name of a pool.
use dynamic_device_scaler.Base.{
  ℕ, ◌≡◌, ◌≢◌, refl, sym, ap, ◌∙◌, subst, Text, true, false, some, [], ◌∷◌, ◌++◌, length,
  length-append, ◌==◌, ==_iff, ==_refl, nat_eq, bytes, Bool-cases, Option-cases, inl, inr, arith,
}
use mathlib.Core.Bool.{false≢true}
use mathlib.Core.Option.{some-injective}
use dynamic_device_scaler.Collect.Slices.{is_empty}
use dynamic_device_scaler.Collect.Claims.{are_digits, after, is_fabric_suffix, device_name_of_pool}

abbrev fabric : Text
fabric = bytes "-fabric"

-- The rest of a text that starts with a prefix, and the other way round.
pub after-append : (p t : Text) → after p (p ++ t) ≡ some t
after-append [] t = refl
after-append (b ∷ p) t = rw (==_refl b) (after-append p t)

pub append_of_after : (p k t : Text) → after p k ≡ some t → k ≡ p ++ t
append_of_after [] k t h = some-injective k t h
append_of_after (b ∷ p) [] t h = cc
append_of_after (b ∷ p) (c ∷ k) t h = elim (Bool-cases (b == c)) [
  | inl e ↦
      let same = (==_iff b c).0 e in let rest = append_of_after p k t (rw e at h) in rw (same, rest)
  | inr e ↦ absurd (ground arith)
]

-- What is taken off the name of a pool: -fabric and a number at its end, if they are there.
pub data Trims (pool name : Text) : Type 0 where
  trimmed :
      (digits : Text)
      → is_empty digits ≡ false
      → are_digits digits ≡ true
      → pool ≡ name ++ (fabric ++ digits)
      → Trims pool name
  whole :
      name ≡ pool
      → ((other digits : Text)
          → is_empty digits ≡ false
          → are_digits digits ≡ true
          → pool ≢ other ++ (fabric ++ digits))
      → Trims pool name

fabric_suffix :
    (pool : Text)
    → is_fabric_suffix pool ≡ true
    → (digits : Text) × (is_empty digits ≡ false)
      × (are_digits digits ≡ true)
      × (pool ≡ fabric ++ digits)
fabric_suffix pool h = elim (Option-cases (after fabric pool)) [
  | inl e ↦ absurd (ground arith)
  | inr (digits, e) ↦ (digits, ground arith, ground arith, append_of_after fabric pool digits e)
]

is_fabric_suffix-append :
    (digits : Text)
    → is_empty digits ≡ false
    → are_digits digits ≡ true
    → is_fabric_suffix (fabric ++ digits) ≡ true
is_fabric_suffix-append digits some_digit h = ground arith

Trims-cons :
    (b : ℕ) (pool name : Text)
    → is_fabric_suffix (b ∷ pool) ≡ false
    → Trims pool name
    → Trims (b ∷ pool) (b ∷ name)
Trims-cons b pool name h (trimmed digits s d e) = trimmed digits s d (ap (λ (t : Text). b ∷ t) e)
Trims-cons b pool name h (whole e none_of) = whole (ap (λ (t : Text). b ∷ t) e) other_of
  where
    other_of :
        (other digits : Text)
        → is_empty digits ≡ false
        → are_digits digits ≡ true
        → b ∷ pool ≢ other ++ (fabric ++ digits)
    other_of [] digits s d f =
        let yes_it_is = is_fabric_suffix-append digits s d in
        let no_it_is_not = subst (λ (t : Text). is_fabric_suffix t ≡ false) f h in
        false≢true (sym no_it_is_not ∙ yes_it_is)
    other_of (x ∷ other) digits s d f = none_of other digits s d (cc f)

-- GetResourceClaimInfo looks up the name of the pool without -fabric and the number at its end; a
-- pool whose name does not end so is looked up whole.
pub device_name_of_pool-Trims : (pool : Text) → Trims pool (device_name_of_pool pool)
unfolding device_name_of_pool
device_name_of_pool-Trims [] = whole refl λ other digits s d e.
    absurd (omega (arith, ap length e, length-append {0} other (fabric ++ digits)))
device_name_of_pool-Trims (b ∷ pool) = elim (Bool-cases (is_fabric_suffix (b ∷ pool))) [
  | inl e ↦ let (digits, s, d, f) = fabric_suffix (b ∷ pool) e in rw e (trimmed digits s d f)
  | inr e ↦ rw e (Trims-cons b pool (device_name_of_pool pool) e (device_name_of_pool-Trims pool))
]
