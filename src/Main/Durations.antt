-- ===== src/Main/Durations.antt =====
-- The settings that main accepts are durations in use.
use dynamic_device_scaler.Base.{
  ℕ, ◌*◌, ◌≤◌, ℤ, pos, negsuc, ltb_ℤ, ◌≤ℤ◌, Text, ◌||◌, Option, none, some, [], ◌∷◌, ◌≡◌, refl, sym,
  subst, bytes, Bool-cases, inl, inr, arith,
}
use dynamic_device_scaler.Types.{Duration}
use dynamic_device_scaler.Effects.{ok}
use dynamic_device_scaler.Effects.Results.{ok-injective, result_bind}
use dynamic_device_scaler.LastUsed.Age.{IsThreshold}
use dynamic_device_scaler.Controller.{Settings}
use dynamic_device_scaler.Collect.Nodes.{atoi}
use dynamic_device_scaler.Main.{checked, env_value, get_env_as_int, seconds, settings_of}

-- A whole number of seconds, a day at most.
pub record IsSetting (d : Duration) : Type 0 where
  pub count : ℕ
  pub is_count : d ≡ pos (count * 1000000000)
  pub at_most_a_day : count ≤ 86400

abbrev InRange : ℤ → Type 0
InRange n = (pos 0 ≤ℤ n) × (n ≤ℤ pos 86400)

checked-InRange : (o : Option ℤ) (n : ℤ) → checked o ≡ ok n → InRange n
checked-InRange none n h = cc
checked-InRange (some v) n h = elim (Bool-cases (ltb_ℤ v (pos 0) || ltb_ℤ (pos 86400) v)) [
  | inl out ↦ absurd (ground arith)
  | inr within ↦ subst InRange (ok-injective v n (ground arith)) (ground arith, ground arith)
]

env_value-InRange :
    (default_value : ℤ) (text : Text) (n : ℤ)
    → InRange default_value
    → env_value default_value text ≡ ok n
    → InRange n
env_value-InRange default_value [] n d h = subst InRange (ok-injective default_value n h) d
env_value-InRange default_value (b ∷ bs) n d h = checked-InRange (atoi (b ∷ bs)) n h

seconds-IsSetting : (n : ℤ) → InRange n → IsSetting (seconds n)
seconds-IsSetting (pos n) (low, high) = record {
  count = n;
  is_count = refl;
  at_most_a_day = omega arith;
}
seconds-IsSetting (negsuc n) (low, high) = absurd (omega arith)

IsSetting-IsThreshold : (d : Duration) → IsSetting d → IsThreshold d
IsSetting-IsThreshold d s =
    subst IsThreshold (sym s.is_count)
      (record { above = omega arith; below = omega (arith, s.at_most_a_day) })

-- Where main accepts the environment, each setting is a whole number of seconds from 0 to a day,
-- and the two durations are such that the tests of the ages of resources are exact.
pub settings_of-IsThreshold :
    (getenv : Text → Text) (settings : Settings)
    → settings_of getenv ≡ ok settings
    → IsSetting settings.scan_interval
      × (IsSetting settings.device_no_removal × IsThreshold settings.device_no_removal)
      × (IsSetting settings.device_no_allocation × IsThreshold settings.device_no_allocation)
unfolding settings_of get_env_as_int
settings_of-IsThreshold getenv settings h =
    let (a, p, h1) = result_bind (env_value (pos 60) (getenv (bytes "SCAN_INTERVAL"))) _ h in
    let (b, q, h2) =
      result_bind (env_value (pos 600) (getenv (bytes "DEVICE_NO_REMOVAL_DURATION"))) _ h1 in
    let (c, r, h3) =
      result_bind (env_value (pos 60) (getenv (bytes "DEVICE_NO_ALLOCATION_DURATION"))) _ h2 in
    let x = seconds-IsSetting a (env_value-InRange (pos 60) _ a (omega arith, omega arith) p) in
    let y = seconds-IsSetting b (env_value-InRange (pos 600) _ b (omega arith, omega arith) q) in
    let z = seconds-IsSetting c (env_value-InRange (pos 60) _ c (omega arith, omega arith) r) in
    let e = ok-injective _ settings h3 in
    subst
      (λ (s : Settings).
        IsSetting s.scan_interval
        × (IsSetting s.device_no_removal × IsThreshold s.device_no_removal)
        × (IsSetting s.device_no_allocation × IsThreshold s.device_no_allocation))
      e (x, (y, IsSetting-IsThreshold _ y), (z, IsSetting-IsThreshold _ z))
