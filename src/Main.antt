-- ===== src/Main.antt =====
-- cmd/main.go: the settings that main reads from the environment. The flags, the logger and the
-- manager are left out.
pub mod Durations
pub mod Host
pub mod Startup
use dynamic_device_scaler.Base.{
  ◌+◌, ◌*◌, ℤ, pos, negsuc, ltb_ℤ, Text, String, Bool, true, false, ◌||◌, Option, none, some, List,
  [], ◌∷◌, bytes, if◌then◌else◌,
}
use dynamic_device_scaler.Types.{Duration}
use dynamic_device_scaler.Effects.{message, wrapped, Result, ok, err}
use dynamic_device_scaler.Effects.Results.{◌>>=◌}
use dynamic_device_scaler.Collect.Nodes.{atoi}
use dynamic_device_scaler.Controller.{Settings}

abbrev checked : Option ℤ → Result ℤ
checked none = err (wrapped "invalid integer value" (message "strconv.Atoi"))
checked (some value) =
    if ltb_ℤ value (pos 0) || ltb_ℤ (pos 86400) value
    then err (message "must be between 0-86400")
    else ok value

abbrev env_value : ℤ → Text → Result ℤ
env_value default_value [] = ok default_value
env_value default_value (b ∷ bs) = checked (atoi (b ∷ bs))

-- `getEnvAsInt`. The value of a variable that is not set is "".
unfoldable pub get_env_as_int : (Text → Text) → Text → ℤ → Result ℤ
get_env_as_int getenv name default_value = env_value default_value (getenv name)

-- `time.Duration(n) * time.Second`, which is never negative here and never leaves an int64.
abbrev seconds : ℤ → Duration
seconds (pos n) = pos (n * 1000000000)
seconds (negsuc n) = negsuc (n * 1000000000 + 999999999)

-- The settings of the reconciler that main starts.
unfoldable pub settings_of : (Text → Text) → Result Settings
unfolding get_env_as_int
settings_of getenv = do
  scan_interval ← get_env_as_int getenv (bytes "SCAN_INTERVAL") (pos 60)
  device_no_removal ← get_env_as_int getenv (bytes "DEVICE_NO_REMOVAL_DURATION") (pos 600)
  device_no_allocation ← get_env_as_int getenv (bytes "DEVICE_NO_ALLOCATION_DURATION") (pos 60)
  ok (record {
    scan_interval = seconds scan_interval;
    device_no_removal = seconds device_no_removal;
    device_no_allocation = seconds device_no_allocation;
  })
