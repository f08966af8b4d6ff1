-- ===== src/LastUsed.antt =====
-- isLastUsedOverThreshold of internal/utils/reschedule_utils.go, and the difference of two times.
pub mod Age
pub mod Runs
use dynamic_device_scaler.Base.{
  ℤ, pos, negsuc, ◌-ℤ◌, ltb_ℤ, Text, Bool, true, false, Option, none, some, ◌++◌, ◌==◌, int_eq,
  text_eq, bytes, if◌then◌else◌,
}
use dynamic_device_scaler.Types.{Time, Duration}
use dynamic_device_scaler.Kube.{ComposableResource}
use dynamic_device_scaler.Effects.{
  message, wrapped, pure, fail, ◌>>=◌, Environment, Program, observe,
}
use dynamic_device_scaler.Patch.{annotation}

abbrev pub max_duration : Duration
max_duration = pos 0x7fff_ffff_ffff_ffff

abbrev pub min_duration : Duration
min_duration = negsuc 0x7fff_ffff_ffff_ffff

-- The nearest duration.
saturate : ℤ → Duration
saturate d =
    if ltb_ℤ max_duration d then max_duration else if ltb_ℤ d min_duration then min_duration else d

-- `t.Sub(u)`
unfoldable pub sub_time : Time → Time → Duration
unfolding ◌-ℤ◌ saturate
sub_time t u = saturate (t -ℤ u)

abbrev pub zero_time : Time
zero_time = pos 0

abbrev pub last_used_label : Text → Text
last_used_label label_prefix = label_prefix ++ bytes "/last-used-time"

module _ (env : Environment) where
  -- `time.Now().UTC().Sub(since.UTC()) > threshold`
  abbrev pub is_over : Time → Duration → Program env Bool
  is_over since threshold = do now ← observe env.now; pure (ltb_ℤ threshold (sub_time now since))

  over_since_parsed : Option Time → Duration → Program env Bool
  over_since_parsed none threshold = fail (wrapped "failed to parse time" (message "time.Parse"))
  over_since_parsed (some t) threshold = is_over t threshold

  over_since_creation : Time → Duration → Bool → Program env Bool
  over_since_creation creation threshold true =
      if creation == zero_time
      then fail (message "creation timestamp is missing")
      else is_over creation threshold
  over_since_creation creation threshold false = pure true

  over_since_annotation : Option Text → Time → Duration → Bool → Program env Bool
  unfolding over_since_parsed over_since_creation
  over_since_annotation (some last_used) creation threshold use_creation =
      over_since_parsed (env.parse_rfc3339 last_used) threshold
  over_since_annotation none creation threshold use_creation =
      over_since_creation creation threshold use_creation

  unfoldable pub is_last_used_over_threshold :
      ComposableResource → Text → Duration → Bool → Program env Bool
  unfolding over_since_annotation sub_time
  is_last_used_over_threshold resource label_prefix threshold use_create_time_when_not_exists =
      over_since_annotation (annotation (last_used_label label_prefix) resource.annotations)
        resource.creation_timestamp threshold use_create_time_when_not_exists
