-- ===== src/Collect/Names.antt =====
-- The checks of names in internal/utils/info_utils.go: validateDNSLabel and isValidLabelNamePrefix,
-- with the runes that `range` reads from a string and the letters and digits of package unicode.
pub mod Checks
pub mod Returns
use dynamic_device_scaler.Base.{
  ℕ, zero, suc, ◌+◌, ◌-◌, ◌*◌, ltb, leb, Text, Bool, true, false, not, ◌&&◌, ◌||◌, List, [], ◌∷◌,
  length, ◌==◌, nat_eq, if◌then◌else◌,
}
use dynamic_device_scaler.Effects.{message, Result, ok, err, Environment}

abbrev between : ℕ → ℕ → ℕ → Bool
between low high b = leb low b && leb b high

-- unicode.RuneError
abbrev pub rune_error : ℕ
rune_error = 0xfffd

-- The low six bits of a continuation byte.
abbrev low_bits : ℕ → ℕ
low_bits b = b - 0x80

abbrev is_continuation : ℕ → Bool
is_continuation = between 0x80 0xbf

-- The rune that a string begins with, and how many more bytes it takes.
abbrev two_bytes : ℕ → List ℕ → ℕ × ℕ
two_bytes a (b ∷ bs) =
    if is_continuation b then ((a - 0xc0) * 64 + low_bits b, 1) else (rune_error, 0)
two_bytes a [] = (rune_error, 0)

abbrev three_bytes : ℕ → ℕ → ℕ → List ℕ → ℕ × ℕ
three_bytes low high a (b ∷ c ∷ bs) =
    if between low high b && is_continuation c
    then ((a - 0xe0) * 4096 + low_bits b * 64 + low_bits c, 2)
    else (rune_error, 0)
three_bytes low high a _ = (rune_error, 0)

abbrev four_bytes : ℕ → ℕ → ℕ → List ℕ → ℕ × ℕ
four_bytes low high a (b ∷ c ∷ d ∷ bs) =
    if between low high b && is_continuation c && is_continuation d
    then ((a - 0xf0) * 262144 + low_bits b * 4096 + low_bits c * 64 + low_bits d, 3)
    else (rune_error, 0)
four_bytes low high a _ = (rune_error, 0)

-- The ranges of package unicode/utf8: no overlong forms, no surrogates, nothing above U+10FFFF.
unfoldable pub rune_at : ℕ → List ℕ → ℕ × ℕ
rune_at a rest =
    if ltb a 0x80
    then (a, 0)
    else if between 0xc2 0xdf a
    then two_bytes a rest
    else if a == 0xe0
    then three_bytes 0xa0 0xbf a rest
    else if a == 0xed
    then three_bytes 0x80 0x9f a rest
    else if between 0xe1 0xef a
    then three_bytes 0x80 0xbf a rest
    else if a == 0xf0
    then four_bytes 0x90 0xbf a rest
    else if between 0xf1 0xf3 a
    then four_bytes 0x80 0xbf a rest
    else if a == 0xf4
    then four_bytes 0x80 0x8f a rest
    else (rune_error, 0)

-- `for _, c := range s`, with the number of bytes that belong to the last rune.
unfoldable pub runes_from : ℕ → Text → List ℕ
unfolding rune_at
runes_from skip [] = []
runes_from (suc skip) (a ∷ rest) = runes_from skip rest
runes_from zero (a ∷ rest) = let (rune, more) = rune_at a rest in rune ∷ runes_from more rest

abbrev pub runes : Text → List ℕ
runes = runes_from 0

module _ (env : Environment) where
  -- `unicode.IsLetter`
  abbrev pub is_letter : ℕ → Bool
  is_letter c =
      if leb c 0xff
      then between b'A' b'Z' c
        || between b'a' b'z' c
        || c == 0xaa
        || c == 0xb5
        || c == 0xba
        || between 0xc0 0xd6 c
        || between 0xd8 0xf6 c
        || between 0xf8 0xff c
      else env.is_other_letter c

  -- `unicode.IsDigit`
  abbrev pub is_digit : ℕ → Bool
  is_digit c = if leb c 0xff then between b'0' b'9' c else env.is_other_digit c

  abbrev pub is_letter_or_digit : ℕ → Bool
  is_letter_or_digit c = is_letter c || is_digit c

  abbrev last_of : ℕ → List ℕ → ℕ
  last_of a [] = a
  last_of a (b ∷ bs) = last_of b bs

  -- The loop over the runes of a label.
  check_runes : List ℕ → Result (Unit {0})
  check_runes [] = ok tt
  check_runes (c ∷ cs) =
      if is_letter_or_digit c || c == b'-'
      then check_runes cs
      else err (message "contains invalid character")

  -- The checks of the first and the last byte, each taken as a rune, and of the runes.
  check_ends : ℕ → List ℕ → Result (Unit {0})
  unfolding check_runes runes_from
  check_ends first rest =
      if not (is_letter_or_digit first)
      then err (message "must start with letter or digit")
      else if not (is_letter_or_digit (last_of first rest))
      then err (message "must end with letter or digit")
      else check_runes (runes (first ∷ rest))

  unfoldable pub validate_dns_label : Text → ℕ → Result (Unit {0})
  unfolding check_ends
  validate_dns_label [] max_length = err (message "cannot be empty")
  validate_dns_label (b ∷ bs) max_length =
      if ltb max_length (length (b ∷ bs))
      then err (message "exceeds character limit")
      else check_ends b bs

  -- The loop over the runes of a prefix, with the rune before.
  prefix_runes : ℕ → List ℕ → Bool
  prefix_runes prev [] = true
  prefix_runes prev (c ∷ cs) =
      if not (is_letter_or_digit c || c == b'.' || c == b'-')
      then false
      else if c == b'.' && prev == b'.'
      then false
      else prefix_runes c cs

  unfoldable pub is_valid_label_name_prefix : Text → Bool
  unfolding prefix_runes runes_from
  is_valid_label_name_prefix [] = false
  is_valid_label_name_prefix (b ∷ bs) =
      if ltb 100 (length (b ∷ bs))
      then false
      else if not (is_letter_or_digit b)
      then false
      else if not (is_letter_or_digit (last_of b bs))
      then false
      else prefix_runes 0 (runes (b ∷ bs))
