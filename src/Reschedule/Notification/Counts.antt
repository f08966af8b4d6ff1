-- ===== src/Reschedule/Notification/Counts.antt =====
-- What getUniqueModelsWithCounts counts.
use dynamic_device_scaler.Base.{
  ℕ, suc, ◌+◌, ◌<◌, Text, Bool, true, List, [], ◌∷◌, insert, lookup-insert, ◌≡◌, ap, ◌∙◌, In,
  count_if, Bool-cases, inl, inr, ◌==◌, ==_iff, text_eq, if◌then◌else◌, arith,
}
use dynamic_device_scaler.Types.{preparing, state_eq, ResourceClaimDevice, ResourceClaimInfo}
use dynamic_device_scaler.Reschedule.{
  count_at, count_models, keys_of, get_unique_models_with_counts,
}
use dynamic_device_scaler.Reschedule.States.{all_preparing, all_preparing_in}

-- A device of the model.
abbrev pub is_device_of : Text → ResourceClaimDevice → Bool
is_device_of model d = d.model == model

count_at-insert :
    (key model : Text) (n : ℕ) (models : List (Text × ℕ))
    → count_at model (insert key n models) ≡ (if key == model then n else count_at model models)
count_at-insert key model n models = ground (arith, lookup-insert key model n models)

count_models_lem :
    (model : Text) (ds : List ResourceClaimDevice) (models : List (Text × ℕ))
    → all_preparing_in ds ≡ true
    → count_at model (count_models ds models)
      ≡ count_at model models + count_if (is_device_of model) ds
unfolding count_models
count_models_lem model [] models h = omega arith
count_models_lem model (d ∷ ds) models h = elim (Bool-cases (d.state == preparing)) [
  | inr e ↦ absurd (ground arith)
  | inl e ↦
      rw
        (
          e,
          count_models_lem model ds (insert d.model (suc (count_at d.model models)) models)
              (ground arith),
          count_at-insert d.model model (suc (count_at d.model models)) models,
        )
        (elim (Bool-cases (d.model == model)) [
          | inl same ↦
              rw (same, ap (λ m. count_at m models) ((==_iff d.model model).0 same)) (omega arith)
          | inr other ↦ rw other (omega arith)
        ])
]

pub In-keys_of :
    (model : Text) (models : List (Text × ℕ))
    → 0 < count_at model models
    → In model (keys_of models)
In-keys_of model [] h = absurd (omega arith)
In-keys_of model ((k, n) ∷ models) h = elim (Bool-cases (k == model)) [
  | inl e ↦ inl (ground (arith, ==_iff k model))
  | inr e ↦ inr (In-keys_of model models (ground arith))
]

-- Of a claim that waits for all of its devices, the counts are those of its devices.
pub get_unique_models_with_counts_lem :
    (model : Text) (rc : ResourceClaimInfo)
    → all_preparing rc ≡ true
    → count_at model (get_unique_models_with_counts rc) ≡ count_if (is_device_of model) rc.devices
unfolding get_unique_models_with_counts
get_unique_models_with_counts_lem model rc h =
    count_models_lem model rc.devices [] h ∙ (omega arith)
