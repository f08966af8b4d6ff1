-- ===== src/Patch.antt =====
-- internal/utils/patch_utils.go: the patches, each in a loop that tries again after a conflict.
pub mod Retry
pub mod Conditions
pub mod Requests
pub mod Labels
pub mod Claims
pub mod Annotations
pub mod Runs
pub mod Takes
pub mod Relents
use dynamic_device_scaler.Base.{
  ℕ, zero, suc, ℤ, Text, String, Bool, true, false, Option, none, some, List, [], ◌∷◌, ◌++◌, map,
  lookup, insert, ◌==◌, text_eq, bytes, if◌then◌else◌,
}
use dynamic_device_scaler.Types.{Time}
use dynamic_device_scaler.Kube.{
  Condition, DeviceStatus, DeviceResult, Allocation, ResourceClaim, ComposableResource, Write,
  patch_size, patch_annotation, patch_claim_devices, patch_node_labels,
}
use dynamic_device_scaler.Conditions.{condition_true}
use dynamic_device_scaler.Effects.{
  ApiError, conflict, other, Reply, done, refused, api, wrapped, max_retries_reached, Result, ok,
  err, Action, pure, fail, lift, wrap, ◌>>=◌, ◌>>◌, Environment, Program, request, observe, send,
}

abbrev pub max_retries : ℕ
max_retries = 2

-- What one round of a retry loop comes to: a return, or `lastErr = err; continue`.
pub data Attempt : Type 0 where
  finished : Attempt
  conflicted : ApiError → Attempt

abbrev pub attempt_of : String → Reply (Unit {0}) → Result Attempt
attempt_of text (done _) = ok finished
attempt_of text (refused conflict) = ok (conflicted conflict)
attempt_of text (refused (other e)) = err (wrapped text (api (other e)))

abbrev pub after_attempt :
    {S : Type 0} → Attempt → (ApiError → Action S (Unit {0})) → Action S (Unit {0})
after_attempt finished next = pure tt
after_attempt (conflicted e) next = next e

-- `for range maxRetries { … }` and the error behind it.
unfoldable pub retry : {S : Type 0} → ℕ → Option ApiError → Action S Attempt → Action S (Unit {0})
retry zero last round = fail (max_retries_reached last)
retry (suc n) last round = round >>= λ a. after_attempt a (λ e. retry n (some e) round)

abbrev pub annotation : Text → Option (List (Text × Text)) → Option Text
annotation key none = none
annotation key (some entries) = lookup key entries

abbrev is_set_to : Text → Option Text → Bool
is_set_to value (some v) = v == value
is_set_to value none = false

-- `Conditions[j] = newCondition` at the first condition of the type if its status differs, and
-- `append` if there is none.
unfoldable pub put_condition : Condition → List Condition → List Condition
put_condition new [] = new ∷ []
put_condition new (c ∷ cs) =
    if c.type == new.type
    then (if c.status == new.status then c ∷ cs else new ∷ cs)
    else c ∷ put_condition new cs

abbrev pub conditions_of : DeviceStatus → List Condition
conditions_of device = elim device.conditions [ none ↦ [] | some cs ↦ cs ]

unfoldable pub new_condition : Text → Time → Text → Condition
new_condition type now device = record {
  type = type;
  status = condition_true;
  last_transition_time = now;
  reason = bytes "DeviceConditionUpdated";
  message = bytes "Device " ++ (device ++ (bytes " condition " ++ (type ++ bytes " updated")));
}

unfoldable pub with_condition : Text → Time → DeviceStatus → DeviceStatus
unfolding put_condition new_condition
with_condition type now device = record device {
  conditions = some (put_condition (new_condition type now device.device) (conditions_of device));
}

abbrev status_of : DeviceResult → DeviceStatus
status_of r = record { driver = r.driver; pool = r.pool; device = r.device; conditions = none }

abbrev statuses_of_allocation : Option Allocation → List DeviceStatus
statuses_of_allocation none = []
statuses_of_allocation (some a) = map status_of a.results

abbrev or_allocated : List DeviceStatus → Option Allocation → List DeviceStatus
or_allocated [] allocation = statuses_of_allocation allocation
or_allocated (d ∷ ds) allocation = d ∷ ds

-- The status devices, or those of the allocation where the status has none.
unfoldable pub prepared_devices : ResourceClaim → List DeviceStatus
prepared_devices claim = or_allocated claim.devices claim.allocation

-- `labelsPatch`: a map, so a deletion overrides an addition of the same label.
additions : List Text → List (Text × Option Text) → List (Text × Option Text)
additions [] m = m
additions (l ∷ ls) m = additions ls (insert l (some (bytes "true")) m)

deletions : List Text → List (Text × Option Text) → List (Text × Option Text)
deletions [] m = m
deletions (l ∷ ls) m = deletions ls (insert l none m)

unfoldable pub labels_patch : List Text → List Text → List (Text × Option Text)
unfolding additions deletions
labels_patch add_labels delete_labels = deletions delete_labels (additions add_labels [])

module _ (env : Environment) where
  -- The loop over the devices. The clock is read once for each.
  unfoldable pub with_conditions : Text → List DeviceStatus → Program env (List DeviceStatus)
  with_conditions type [] = pure []
  with_conditions type (d ∷ ds) = do
    now ← observe env.now
    rest ← with_conditions type ds
    pure (with_condition type now d ∷ rest)

  unfoldable pub patch_node_label : Text → List Text → List Text → Program env (Unit {0})
  unfolding retry labels_patch
  patch_node_label node_name add_labels delete_labels = retry max_retries none do
    reply ← send env (patch_node_labels node_name (labels_patch add_labels delete_labels))
    lift (attempt_of "patch failed" reply)

  pub annotation_round : Text → Text → Text → Program env Attempt
  annotation_round resource_name key value = do
    current ←
        wrap "failed to get latest ComposableResource" (request (env.get_resource resource_name))
    if is_set_to value (annotation key current.annotations)
        then pure finished
        else (send env (patch_annotation resource_name key value) >>= λ reply.
            lift (attempt_of "failed to patch ComposableResource" reply))

  unfoldable pub patch_composable_resource_annotation : Text → Text → Text → Program env (Unit {0})
  unfolding retry annotation_round
  patch_composable_resource_annotation resource_name key value =
      retry max_retries none (annotation_round resource_name key value)

  pub size_round : Text → ℤ → Program env Attempt
  size_round request_name count = do
    existing ← wrap "failed to get ComposabilityRequest" (request (env.get_request request_name))
    reply ← send env (patch_size existing.name count)
    lift (attempt_of "failed to patch ComposabilityRequest" reply)

  unfoldable pub patch_composability_request_size : Text → ℤ → Program env (Unit {0})
  unfolding retry size_round
  patch_composability_request_size request_name count =
      retry max_retries none (size_round request_name count)

  patch_devices : Text → ResourceClaim → List DeviceStatus → Program env Attempt
  patch_devices type existing [] = pure finished
  patch_devices type existing (d ∷ ds) = do
    devices ← with_conditions type (d ∷ ds)
    reply ← send env (patch_claim_devices existing.name existing.namespace devices)
    lift (attempt_of "failed to patch ResourceClaim status" reply)

  conditions_round : Text → Text → Text → Program env Attempt
  unfolding patch_devices
  conditions_round name namespace type = do
    existing ← wrap "failed to get ResourceClaim" (request (env.get_claim name namespace))
    patch_devices type existing (prepared_devices existing)

  unfoldable pub patch_resource_claim_device_conditions :
      Text → Text → Text → Program env (Unit {0})
  unfolding retry conditions_round
  patch_resource_claim_device_conditions name namespace type =
      retry max_retries none (conditions_round name namespace type)
