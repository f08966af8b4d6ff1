-- ===== src/Collect/Names/Returns.antt =====
-- The check of a device name never panics.
use dynamic_device_scaler.Base.{ℕ, ltb, not, ◌||◌, ◌==◌, nat_eq, Text, List, [], ◌∷◌, length}
use dynamic_device_scaler.Effects.{Environment, Returns, Any}
use dynamic_device_scaler.Effects.Results.{if-Returns}
use dynamic_device_scaler.Collect.Names.{
  is_letter_or_digit, last_of, check_runes, check_ends, runes, validate_dns_label,
}

module _ (env : Environment) where
  check_runes-Returns : (cs : List ℕ) → Returns Any (check_runes env cs)
  unfolding check_runes
  check_runes-Returns [] = tt
  check_runes-Returns (c ∷ cs) =
      if-Returns Any (is_letter_or_digit env c || c == b'-') _ _ (check_runes-Returns cs) tt

  check_ends-Returns : (first : ℕ) (rest : List ℕ) → Returns Any (check_ends env first rest)
  unfolding check_ends
  check_ends-Returns first rest = if-Returns Any (not (is_letter_or_digit env first)) _ _ tt (
      if-Returns Any (not (is_letter_or_digit env (last_of env first rest))) _ _ tt
        (check_runes-Returns (runes (first ∷ rest))))

  pub validate_dns_label-Returns :
      (name : Text) (max_length : ℕ) → Returns Any (validate_dns_label env name max_length)
  unfolding validate_dns_label
  validate_dns_label-Returns [] max_length = tt
  validate_dns_label-Returns (b ∷ bs) max_length =
      if-Returns Any (ltb max_length (length (b ∷ bs))) _ _ tt (check_ends-Returns b bs)
