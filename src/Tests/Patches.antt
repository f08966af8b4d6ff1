-- ===== src/Tests/Patches.antt =====
-- The patches, the conditions and the coexistence of models at concrete inputs.
use dynamic_device_scaler.Base.{
  pos, ◌≤◌, ◌-ℤ◌, ◌<ℤ◌, Text, Bool, true, false, some, none, [], ◌∷◌, ◌≡◌, ◌≢◌, ◌↔◌, refl, All,
  length, lookup, text_beq, text_eq, bytes, arith,
}
use dynamic_device_scaler.Types.{Time}
use dynamic_device_scaler.Kube.{
  ComposableResource, online, DeviceStatus, patch_size, patch_annotation,
}
use dynamic_device_scaler.Conditions.{condition_true, has_condition_with_status}
use dynamic_device_scaler.Effects.{ok, done}
use dynamic_device_scaler.Models.{is_device_coexistence}
use dynamic_device_scaler.Models.Coexistence.{Excludes, is_device_coexistence-false_iff}
use dynamic_device_scaler.LastUsed.{last_used_label, is_last_used_over_threshold}
use dynamic_device_scaler.LastUsed.Age.{is_last_used_over_threshold-annotated}
use dynamic_device_scaler.Patch.{
  annotation, prepared_devices, with_conditions, labels_patch, with_condition, conditions_of,
  max_retries, patch_composability_request_size, patch_composable_resource_annotation,
  patch_resource_claim_device_conditions,
}
use dynamic_device_scaler.Patch.Annotations.{
  patch_composable_resource_annotation-sends, patch_composable_resource_annotation_same,
}
use dynamic_device_scaler.Patch.Claims.{SetsCondition, patch_resource_claim_device_conditions-sends}
use dynamic_device_scaler.Patch.Conditions.{with_condition_lem}
use dynamic_device_scaler.Patch.Labels.{lookup-labels_patch}
use dynamic_device_scaler.Patch.Requests.{
  Accepted, patch_composability_request_size-sends, patch_composability_request_size-ok,
}
use dynamic_device_scaler.Tests.Cluster.{at_noon, at_noon-NamesAgree}
use dynamic_device_scaler.Tests.Samples.{model_a, model_b, spec, cluster}

is_device_coexistence-false_iff_example :
    (is_device_coexistence model_a model_b spec ≡ false)
    ↔ ((model_a ≢ model_b) × Excludes model_a model_b spec.device_infos)
is_device_coexistence-false_iff_example = is_device_coexistence-false_iff model_a model_b spec

excluded : is_device_coexistence model_a model_b spec ≡ false
unfolding is_device_coexistence text_beq
excluded = refl

lookup-labels_patch_example :
    lookup (bytes "b") (labels_patch (bytes "a" ∷ bytes "b" ∷ []) (bytes "b" ∷ [])) ≡ some none
unfolding text_beq
lookup-labels_patch_example =
    lookup-labels_patch (bytes "a" ∷ bytes "b" ∷ []) (bytes "b" ∷ []) (bytes "b")

abbrev device : DeviceStatus
device = record { driver = bytes "v"; pool = bytes "p"; device = bytes "d1"; conditions = none }

with_condition_lem_example :
    (has_condition_with_status
        (conditions_of (with_condition (bytes "C") (pos 1) device))
        (bytes "C")
        condition_true
      ≡ true)
    × ((other status : Text)
        → other ≢ bytes "C"
        → has_condition_with_status
            (conditions_of (with_condition (bytes "C") (pos 1) device))
            other
            status
          ≡ has_condition_with_status (conditions_of device) other status)
    × ((later : Time)
        → with_condition (bytes "C") later (with_condition (bytes "C") (pos 1) device)
          ≡ with_condition (bytes "C") (pos 1) device)
with_condition_lem_example = with_condition_lem (bytes "C") (pos 1) device

patch_composability_request_size-sends_example :
    All
      (λ w. w ≡ patch_size (bytes "q") (pos 3))
      (patch_composability_request_size at_noon (bytes "q") (pos 3) cluster).writes
    × (length (patch_composability_request_size at_noon (bytes "q") (pos 3) cluster).writes
        ≤ max_retries)
patch_composability_request_size-sends_example =
    patch_composability_request_size-sends at_noon (bytes "q") (pos 3) at_noon-NamesAgree cluster

-- The first try meets a conflict, and the second is taken.
patched_at_second_try :
    (patch_composability_request_size at_noon (bytes "q") (pos 3) cluster).result ≡ ok tt
unfolding patch_composability_request_size text_beq
patched_at_second_try = refl

patch_composability_request_size-ok_example :
    Accepted at_noon
      (patch_size (bytes "q") (pos 3))
      (patch_composability_request_size at_noon (bytes "q") (pos 3) cluster).state
patch_composability_request_size-ok_example =
    patch_composability_request_size-ok at_noon (bytes "q") (pos 3) at_noon-NamesAgree cluster
      patched_at_second_try

patch_composable_resource_annotation-sends_example :
    All
      (λ w. w ≡ patch_annotation (bytes "r1") (bytes "k") (bytes "v"))
      (patch_composable_resource_annotation at_noon
        (bytes "r1")
        (bytes "k")
        (bytes "v")
        cluster).writes
    × (length
          (patch_composable_resource_annotation at_noon
            (bytes "r1")
            (bytes "k")
            (bytes "v")
            cluster).writes
        ≤ max_retries)
patch_composable_resource_annotation-sends_example =
    patch_composable_resource_annotation-sends at_noon (bytes "r1") (bytes "k") (bytes "v") cluster

abbrev r1 : ComposableResource
r1 = record {
  name = bytes "r1";
  annotations = some ((bytes "p/last-used-time", bytes "z") ∷ []);
  creation_timestamp = pos 2;
  deletion_timestamp = none;
  model = model_a;
  target_node = bytes "n";
  state = online;
  device_id = bytes "u1";
}

r1_found : (at_noon.get_resource (bytes "r1") cluster).0 ≡ done r1
unfolding text_beq
r1_found = refl

r1_used : annotation (last_used_label (bytes "p")) r1.annotations ≡ some (bytes "z")
unfolding text_beq
r1_used = refl

patch_composable_resource_annotation_same_example :
    ((patch_composable_resource_annotation at_noon
        (bytes "r1")
        (last_used_label (bytes "p"))
        (bytes "z")
        cluster).result
      ≡ ok tt)
    × ((patch_composable_resource_annotation at_noon
          (bytes "r1")
          (last_used_label (bytes "p"))
          (bytes "z")
          cluster).writes
        ≡ [])
patch_composable_resource_annotation_same_example =
    patch_composable_resource_annotation_same at_noon (bytes "r1") (last_used_label (bytes "p"))
      (bytes "z") cluster r1 r1_found r1_used

patch_resource_claim_device_conditions-sends_example :
    All
      (SetsCondition (bytes "x") (bytes "s") (bytes "C"))
      (patch_resource_claim_device_conditions at_noon
        (bytes "x")
        (bytes "s")
        (bytes "C")
        cluster).writes
    × (length
          (patch_resource_claim_device_conditions at_noon
            (bytes "x")
            (bytes "s")
            (bytes "C")
            cluster).writes
        ≤ max_retries)
patch_resource_claim_device_conditions-sends_example =
    patch_resource_claim_device_conditions-sends at_noon at_noon-NamesAgree (bytes "x") (bytes "s")
      (bytes "C") cluster

-- The second try follows the conflict.
two_patches :
    length
      (patch_resource_claim_device_conditions at_noon
        (bytes "x")
        (bytes "s")
        (bytes "C")
        cluster).writes
    ≡ 2
unfolding patch_resource_claim_device_conditions prepared_devices with_conditions with_condition
    text_beq
two_patches = refl

is_last_used_over_threshold-annotated_example :
    (answer : Bool) × ((is_last_used_over_threshold at_noon r1
        (bytes "p")
        (pos 100)
        true
        cluster).result
      ≡ ok answer)
    × ((answer ≡ true) ↔ (pos 100 <ℤ pos 200 -ℤ pos 122))
is_last_used_over_threshold-annotated_example =
    is_last_used_over_threshold-annotated at_noon (pos 200) (λ s. refl) r1 (bytes "p") (pos 100)
      true cluster (record { above = omega arith; below = omega arith }) r1_used refl
