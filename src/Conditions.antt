-- ===== src/Conditions.antt =====
-- The tests of conditions in internal/utils/info_utils.go.
use dynamic_device_scaler.Base.{
  Text, Bool, true, false, ◌&&◌, List, [], ◌∷◌, ◌++◌, contains, ◌==◌, text_eq, bytes, if◌then◌else◌,
}
use dynamic_device_scaler.Kube.{Condition}

abbrev pub condition_true : Text
condition_true = bytes "True"

-- `hasConditionWithStatus`
unfoldable pub has_condition_with_status : List Condition → Text → Text → Bool
has_condition_with_status [] type status = false
has_condition_with_status (c ∷ cs) type status =
    if c.type == type && c.status == status then true else has_condition_with_status cs type status

any_true_in : List Text → List Condition → Bool
any_true_in types [] = false
any_true_in types (c ∷ cs) =
    if contains types c.type && c.status == condition_true then true else any_true_in types cs

-- `hasMatchingBindingCondition`. The set of the types is a list; the source returns early where
-- the set or the conditions are empty.
unfoldable pub has_matching_binding_condition : List Condition → List Text → List Text → Bool
unfolding any_true_in
has_matching_binding_condition conditions binding_conditions binding_failure_conditions =
    any_true_in (binding_conditions ++ binding_failure_conditions) conditions
