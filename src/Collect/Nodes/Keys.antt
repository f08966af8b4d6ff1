-- ===== src/Collect/Nodes/Keys.antt =====
-- Which label of a node is about which bound of which device.
use dynamic_device_scaler.Base.{
  ℕ, ◌≡◌, refl, sym, ap, ◌∙◌, subst, Text, Option, none, some, [], ◌∷◌, ◌++◌, length, length-append,
  ◌==◌, ==_iff, ==_refl, text_eq, nat_eq, bytes, Bool-cases, Option-cases, inl, inr, arith,
}
use mathlib.Core.Option.{some-injective}
use dynamic_device_scaler.Collect.Claims.{after}
use dynamic_device_scaler.Collect.Claims.Pools.{after-append, append_of_after}
use dynamic_device_scaler.Collect.Nodes.{
  Bound, max_of, min_of, before_suffix, or_other, bound_of_key,
}

abbrev suffix_of : Bound → Text
suffix_of max_of = bytes "-size-max"
suffix_of min_of = bytes "-size-min"

-- The label that sets a bound of a device.
abbrev pub label_key : Text → Bound → Text → Text
label_key prefix bound device_name = (prefix ++ bytes "/") ++ (device_name ++ suffix_of bound)

-- What stands before a suffix, and the other way round.
append_of_before : (s t d : Text) → before_suffix s t ≡ some d → t ≡ d ++ s
append_of_before s [] d h = elim (Bool-cases (s == [])) [
  | inl e ↦
      let nil : [] ≡ d = some-injective [] d (rw e at h) in
      subst (λ (d : Text). [] ≡ d ++ s) nil (sym ((==_iff s []).0 e))
  | inr e ↦ absurd (ground arith)
]
append_of_before s (b ∷ t) d h = elim (Bool-cases (s == b ∷ t)) [
  | inl e ↦
      let nil : [] ≡ d = some-injective [] d (rw e at h) in
      subst (λ (d : Text). b ∷ t ≡ d ++ s) nil (sym ((==_iff s (b ∷ t)).0 e))
  | inr e ↦ elim (Option-cases (before_suffix s t)) [
    | inl n ↦ absurd (ground arith)
    | inr (r, p) ↦
        let step : b ∷ r ≡ d = ground arith in
        subst (λ (d : Text). b ∷ t ≡ d ++ s) step
          (ap (λ (t : Text). b ∷ t) (append_of_before s t r p))
  ]
]

before_suffix-append : (c : ℕ) (cs d : Text) → before_suffix (c ∷ cs) (d ++ c ∷ cs) ≡ some d
before_suffix-append c cs [] = rw (==_refl (c ∷ cs))
before_suffix-append c cs (x ∷ d) = elim (Bool-cases ((c ∷ cs) == x ∷ (d ++ c ∷ cs))) [
  | inl e ↦
      let same = (==_iff (c ∷ cs) (x ∷ (d ++ c ∷ cs))).0 e in
      absurd (omega (arith, ap length same, length-append {0} d (c ∷ cs)))
  | inr e ↦ rw (e, before_suffix-append c cs d)
]

last? : Text → Option ℕ
last? [] = none
last? (x ∷ []) = some x
last? (x ∷ y ∷ t) = last? (y ∷ t)

last?-append : (d : Text) (c : ℕ) (cs : Text) → last? (d ++ c ∷ cs) ≡ last? (c ∷ cs)
unfolding last?
last?-append [] c cs = refl
last?-append (x ∷ []) c cs = refl
last?-append (x ∷ y ∷ d) c cs = last?-append (y ∷ d) c cs

max_of_min : (d : Text) → before_suffix (suffix_of max_of) (d ++ suffix_of min_of) ≡ none
unfolding last?
max_of_min d = elim (Option-cases (before_suffix (suffix_of max_of) (d ++ suffix_of min_of))) [
  | inl e ↦ e
  | inr (r, p) ↦
      let same = ap last? (append_of_before (suffix_of max_of) _ r p) in
      let ends : ◌≡◌ {A = Option ℕ} (some b'n') (some b'x') =
        sym (last?-append d b'-' (bytes "size-min"))
        ∙ same
        ∙ last?-append r b'-' (bytes "size-max") in
      absurd (ground arith)
]

-- The label of a bound is read as that bound,
pub bound_of_key-label_key :
    (prefix : Text) (bound : Bound) (d : Text)
    → bound_of_key prefix (label_key prefix bound d) ≡ some (bound, d)
unfolding bound_of_key
bound_of_key-label_key prefix max_of d = rw (
  bound_of_key,
  after-append (prefix ++ bytes "/") (d ++ suffix_of max_of),
  before_suffix-append b'-' (bytes "size-max") d,
)
bound_of_key-label_key prefix min_of d = rw (
  bound_of_key,
  after-append (prefix ++ bytes "/") (d ++ suffix_of min_of),
  max_of_min d,
  before_suffix-append b'-' (bytes "size-min") d,
)

or_other_cases :
    (suffix : Text) (bound : Bound) (d : Text) (m n : Option Text)
    → before_suffix (suffix_of max_of) suffix ≡ m
    → before_suffix (suffix_of min_of) suffix ≡ n
    → or_other m n ≡ some (bound, d)
    → suffix ≡ d ++ suffix_of bound
or_other_cases suffix bound d (some x) n p q h =
    subst (λ (found : Bound × Text). suffix ≡ found.1 ++ suffix_of found.0)
      (some-injective (max_of, x) (bound, d) h) (append_of_before (suffix_of max_of) suffix x p)
or_other_cases suffix bound d none (some x) p q h =
    subst (λ (found : Bound × Text). suffix ≡ found.1 ++ suffix_of found.0)
      (some-injective (min_of, x) (bound, d) h) (append_of_before (suffix_of min_of) suffix x q)
or_other_cases suffix bound d none none p q h = cc

-- and no other label is.
pub label_key-of_bound :
    (prefix key : Text) (bound : Bound) (d : Text)
    → bound_of_key prefix key ≡ some (bound, d)
    → key ≡ label_key prefix bound d
unfolding bound_of_key
label_key-of_bound prefix key bound d h = elim (Option-cases (after (prefix ++ bytes "/") key)) [
  | inl e ↦ absurd (ground arith)
  | inr (suffix, e) ↦
      append_of_after (prefix ++ bytes "/") key suffix e
      ∙ ap (λ (t : Text). (prefix ++ bytes "/") ++ t)
          (or_other_cases suffix bound d _ _ refl refl (rw (e, bound_of_key) at h))
]
