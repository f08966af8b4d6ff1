-- ===== src/Collect/Names/Checks.antt =====
-- What an accepted device name and an accepted label prefix satisfy.
use dynamic_device_scaler.Base.{
  ℕ, ◌≤◌, ltb, Text, Bool, true, false, not, ◌&&◌, ◌||◌, List, [], ◌∷◌, ◌≡◌, refl, All, length,
  ◌==◌, nat_eq, if◌then◌else◌, arith,
}
use dynamic_device_scaler.Effects.{Error, message, Result, ok, err, Environment}
use dynamic_device_scaler.Collect.Names.{
  runes, is_letter_or_digit, last_of, check_runes, check_ends, validate_dns_label, prefix_runes,
  is_valid_label_name_prefix,
}

-- What a check has passed that went on.
pub if_ok :
    {A : Type 0} (b : Bool) (x : Result A) (e : Error) {a : A}
    → (if b then x else err e) ≡ ok a
    → (b ≡ true) × (x ≡ ok a)
if_ok true x e h = (refl, h)
if_ok false x e h = cc

pub if_err :
    {A : Type 0} (b : Bool) (e : Error) (x : Result A) {a : A}
    → (if b then err e else x) ≡ ok a
    → (b ≡ false) × (x ≡ ok a)
if_err true e x h = cc
if_err false e x h = (refl, h)

if_true : (b x : Bool) → (if b then false else x) ≡ true → (b ≡ false) × (x ≡ true)
if_true true x h = cc
if_true false x h = (refl, h)

module _ (env : Environment) where
  -- A letter, a digit or a dash.
  abbrev pub is_name_rune : ℕ → Bool
  is_name_rune c = is_letter_or_digit env c || c == b'-'

  abbrev pub is_prefix_rune : ℕ → Bool
  is_prefix_rune c = is_letter_or_digit env c || c == b'.' || c == b'-'

  -- No dot follows a dot.
  abbrev pub NoTwoDots : ℕ → List ℕ → Type 0
  NoTwoDots prev [] = Unit
  NoTwoDots prev (c ∷ cs) = ((c == b'.' && prev == b'.') ≡ false) × NoTwoDots c cs

  check_runes-All : (cs : List ℕ) → check_runes env cs ≡ ok tt → All (λ c. is_name_rune c ≡ true) cs
  unfolding check_runes
  check_runes-All [] h = tt
  check_runes-All (c ∷ cs) h =
      let (e, rest) =
        if_ok (is_name_rune c) (check_runes env cs) (message "contains invalid character") h in
      (e, check_runes-All cs rest)

  pub validate_dns_label-ok :
      (name : Text) (max_length : ℕ)
      → validate_dns_label env name max_length ≡ ok tt
      → (1 ≤ length name)
        × (length name ≤ max_length)
        × All (λ c. is_name_rune c ≡ true) (runes name)
  unfolding validate_dns_label check_ends
  validate_dns_label-ok [] max_length h = cc
  validate_dns_label-ok (b ∷ bs) max_length h =
      let (fits, h1) =
        if_err (ltb max_length (length (b ∷ bs))) (message "exceeds character limit") _ h in
      let (first, h2) =
        if_err (not (is_letter_or_digit env b)) (message "must start with letter or digit") _ h1 in
      let (last, h3) =
        if_err (not (is_letter_or_digit env (last_of env b bs)))
          (message "must end with letter or digit") (check_runes env (runes (b ∷ bs))) h2 in
      (omega arith, ground arith, check_runes-All (runes (b ∷ bs)) h3)

  prefix_runes-All :
      (prev : ℕ) (cs : List ℕ)
      → prefix_runes env prev cs ≡ true
      → All (λ c. is_prefix_rune c ≡ true) cs × NoTwoDots prev cs
  unfolding prefix_runes
  prefix_runes-All prev [] h = (tt, tt)
  prefix_runes-All prev (c ∷ cs) h =
      let (good, h1) = if_true (not (is_prefix_rune c)) _ h in
      let (apart, h2) = if_true (c == b'.' && prev == b'.') (prefix_runes env c cs) h1 in
      let (each, dots) = prefix_runes-All c cs h2 in ((ground arith, each), (apart, dots))

  pub is_valid_label_name_prefix-true :
      (prefix : Text)
      → is_valid_label_name_prefix env prefix ≡ true
      → (1 ≤ length prefix)
        × (length prefix ≤ 100)
        × All (λ c. is_prefix_rune c ≡ true) (runes prefix)
        × NoTwoDots 0 (runes prefix)
  unfolding is_valid_label_name_prefix
  is_valid_label_name_prefix-true [] h = cc
  is_valid_label_name_prefix-true (b ∷ bs) h =
      let (fits, h1) = if_true (ltb 100 (length (b ∷ bs))) _ h in
      let (first, h2) = if_true (not (is_letter_or_digit env b)) _ h1 in
      let (last, h3) =
        if_true (not (is_letter_or_digit env (last_of env b bs)))
          (prefix_runes env 0 (runes (b ∷ bs))) h2 in
      let (each, dots) = prefix_runes-All 0 (runes (b ∷ bs)) h3 in
      (omega arith, ground arith, each, dots)
