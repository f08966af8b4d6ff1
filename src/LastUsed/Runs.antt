-- ===== src/LastUsed/Runs.antt =====
-- The test of an age as a sequence of calls that never panics.
use dynamic_device_scaler.Base.{Text, Bool, true, false, Option, none, some, ◌==◌, int_eq, ltb_ℤ}
use dynamic_device_scaler.Types.{Time, Duration}
use dynamic_device_scaler.Kube.{ComposableResource}
use dynamic_device_scaler.Effects.{
  message, wrapped, Environment, observe, Runs, Any, pure-Runs, fail-Runs, now-Runs, >>=-Runs,
  if-Runs,
}
use dynamic_device_scaler.Patch.{annotation}
use dynamic_device_scaler.LastUsed.{
  zero_time, sub_time, last_used_label, is_over, over_since_parsed, over_since_creation,
  over_since_annotation, is_last_used_over_threshold,
}

module _ (env : Environment) where
  is_over-Runs : (since : Time) (threshold : Duration) → Runs env Any (is_over env since threshold)
  is_over-Runs since threshold =
      >>=-Runs {Q = Any} (observe env.now) _ (now-Runs env)
        λ now _. pure-Runs (ltb_ℤ threshold (sub_time now since)) tt

  over_since_parsed-Runs :
      (o : Option Time) (threshold : Duration) → Runs env Any (over_since_parsed env o threshold)
  unfolding over_since_parsed
  over_since_parsed-Runs none threshold =
      fail-Runs (wrapped "failed to parse time" (message "time.Parse"))
  over_since_parsed-Runs (some t) threshold = is_over-Runs t threshold

  over_since_creation-Runs :
      (creation : Time) (threshold : Duration) (use_creation : Bool)
      → Runs env Any (over_since_creation env creation threshold use_creation)
  unfolding over_since_creation
  over_since_creation-Runs creation threshold true =
      if-Runs (creation == zero_time) _ _ (fail-Runs (message "creation timestamp is missing"))
        (is_over-Runs creation threshold)
  over_since_creation-Runs creation threshold false = pure-Runs true tt

  over_since_annotation-Runs :
      (o : Option Text) (creation : Time) (threshold : Duration) (use_creation : Bool)
      → Runs env Any (over_since_annotation env o creation threshold use_creation)
  unfolding over_since_annotation
  over_since_annotation-Runs (some last_used) creation threshold use_creation =
      over_since_parsed-Runs (env.parse_rfc3339 last_used) threshold
  over_since_annotation-Runs none creation threshold use_creation =
      over_since_creation-Runs creation threshold use_creation

  pub is_last_used_over_threshold-Runs :
      (r : ComposableResource) (prefix : Text) (threshold : Duration) (use_creation : Bool)
      → Runs env Any (is_last_used_over_threshold env r prefix threshold use_creation)
  unfolding is_last_used_over_threshold
  is_last_used_over_threshold-Runs r prefix threshold use_creation =
      over_since_annotation-Runs (annotation (last_used_label prefix) r.annotations)
        r.creation_timestamp threshold use_creation
