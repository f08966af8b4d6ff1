-- ===== src/LastUsed/Age.antt =====
-- What isLastUsedOverThreshold answers, as a function of the clock's reading.
use dynamic_device_scaler.Base.{
  ℤ, ◌-ℤ◌, ◌<ℤ◌, ◌≤ℤ◌, ltb_ℤ, Text, Bool, true, false, Option, none, some, [], ◌≡◌, ◌∙◌, ◌↔◌, ◌==◌,
  int_eq, if◌then◌else◌, arith,
}
use dynamic_device_scaler.Types.{Time, Duration}
use dynamic_device_scaler.Kube.{ComposableResource, Write}
use dynamic_device_scaler.Effects.{
  message, wrapped, Result, ok, err, Environment, pure, observe, Ensures, Always, pure-Ensures,
  fail-Ensures, observe-Ensures, >>=-Ensures, if-Ensures,
}
use dynamic_device_scaler.Patch.{annotation}
use dynamic_device_scaler.LastUsed.{
  saturate, sub_time, max_duration, min_duration, zero_time, last_used_label, is_over,
  over_since_parsed, over_since_creation, over_since_annotation, is_last_used_over_threshold,
}

saturate-over_iff :
    (d : ℤ) (threshold : Duration)
    → threshold <ℤ max_duration
    → min_duration ≤ℤ threshold
    → (ltb_ℤ threshold (saturate d) ≡ true) ↔ (threshold <ℤ d)
unfolding saturate
saturate-over_iff d threshold h k = ground arith

-- A duration in use, such as those of the settings.
pub record IsThreshold (threshold : Duration) : Type 0 where
  pub above : min_duration ≤ℤ threshold
  pub below : threshold <ℤ max_duration

-- The answer about a resource with this annotation and creation time, at this instant.
unfoldable pub over_at : Environment → Time → Duration → Option Text → Time → Bool → Result Bool
over_at env now threshold (some text) creation use_creation = elim (env.parse_rfc3339 text) [
  | none ↦ err (wrapped "failed to parse time" (message "time.Parse"))
  | some used ↦ ok (ltb_ℤ threshold (sub_time now used))
]
over_at env now threshold none creation false = ok true
over_at env now threshold none creation true =
    if creation == zero_time
    then err (message "creation timestamp is missing")
    else ok (ltb_ℤ threshold (sub_time now creation))

-- The clock stands still.
abbrev pub IsSteady : Environment → Time → Type 0
IsSteady env now = (s : env.State) → (env.now s).0 ≡ now

module _ (env : Environment) (now : Time) (steady : IsSteady env now) where
  -- The annotation counts if it is there, and then the creation time does not; without both the
  -- resource is over the threshold. Nothing is sent.
  pub is_last_used_over_threshold-over_at :
      (r : ComposableResource) (prefix : Text) (threshold : Duration) (use_creation : Bool)
      (s : env.State)
      → ((is_last_used_over_threshold env r prefix threshold use_creation s).result
          ≡ over_at env now threshold
              (annotation (last_used_label prefix) r.annotations)
              r.creation_timestamp
              use_creation)
        × ((is_last_used_over_threshold env r prefix threshold use_creation s).writes ≡ [])
  unfolding is_last_used_over_threshold over_at
  is_last_used_over_threshold-over_at r prefix threshold use_creation s = ground (arith, steady s)

  -- With an annotation that parses, the answer is whether more than the threshold has passed since
  -- then, for every threshold that is a duration below the greatest.
  pub is_last_used_over_threshold-annotated :
      (r : ComposableResource) (prefix : Text) (threshold : Duration) (use_creation : Bool)
      (s : env.State) {text : Text} {used : Time}
      → IsThreshold threshold
      → annotation (last_used_label prefix) r.annotations ≡ some text
      → env.parse_rfc3339 text ≡ some used
      → (answer : Bool) × ((is_last_used_over_threshold env r prefix threshold use_creation
            s).result
          ≡ ok answer)
        × ((answer ≡ true) ↔ (threshold <ℤ now -ℤ used))
  unfolding over_at sub_time
  is_last_used_over_threshold-annotated r prefix threshold use_creation s {used} t e f = (
    ltb_ℤ threshold (saturate (now -ℤ used)),
    (is_last_used_over_threshold-over_at r prefix threshold use_creation s).0 ∙ rw (e, over_at, f),
    saturate-over_iff (now -ℤ used) threshold t.below t.above,
  )

module _ (env : Environment) where
  is_over-Ensures :
      {P : Write → Type 0} (since : Time) (threshold : Duration)
      → Ensures P Always (is_over env since threshold)
  is_over-Ensures since threshold =
      >>=-Ensures {Q = Always} (observe env.now)
        (λ now. pure (ltb_ℤ threshold (sub_time now since))) (observe-Ensures env.now (λ s. tt))
        λ now _. pure-Ensures _ tt

  over_since_parsed-Ensures :
      {P : Write → Type 0} (o : Option Time) (threshold : Duration)
      → Ensures P Always (over_since_parsed env o threshold)
  unfolding over_since_parsed
  over_since_parsed-Ensures none threshold = fail-Ensures _
  over_since_parsed-Ensures (some t) threshold = is_over-Ensures t threshold

  over_since_creation-Ensures :
      {P : Write → Type 0} (creation : Time) (threshold : Duration) (use_creation : Bool)
      → Ensures P Always (over_since_creation env creation threshold use_creation)
  unfolding over_since_creation
  over_since_creation-Ensures creation threshold false = pure-Ensures true tt
  over_since_creation-Ensures creation threshold true =
      if-Ensures (creation == zero_time) _ _ (fail-Ensures _) (is_over-Ensures creation threshold)

  over_since_annotation-Ensures :
      {P : Write → Type 0} (o : Option Text) (creation : Time) (threshold : Duration)
      (use_creation : Bool)
      → Ensures P Always (over_since_annotation env o creation threshold use_creation)
  unfolding over_since_annotation
  over_since_annotation-Ensures none creation threshold use_creation =
      over_since_creation-Ensures creation threshold use_creation
  over_since_annotation-Ensures (some text) creation threshold use_creation =
      over_since_parsed-Ensures (env.parse_rfc3339 text) threshold

  -- The step of a larger program: nothing is sent.
  pub is_last_used_over_threshold-Ensures :
      {P : Write → Type 0} (r : ComposableResource) (prefix : Text) (threshold : Duration)
      (use_creation : Bool)
      → Ensures P Always (is_last_used_over_threshold env r prefix threshold use_creation)
  unfolding is_last_used_over_threshold
  is_last_used_over_threshold-Ensures r prefix threshold use_creation =
      over_since_annotation-Ensures (annotation (last_used_label prefix) r.annotations)
        r.creation_timestamp threshold use_creation
