-- ===== src/Models.antt =====
-- internal/utils: which device models a node can hold together (isDeviceCoexistence, notIn), the
-- model behind a device name (getModelName) and the limits of a node (GetModelLimit).
pub mod Coexistence
pub mod Returns
pub mod Limits
use dynamic_device_scaler.Base.{
  ℤ, pos, Text, String, Bool, true, false, not, Option, none, some, List, [], ◌∷◌, any, contains,
  Eq, ◌==◌, text_eq, int_eq, bytes, if◌then◌else◌,
}
use dynamic_device_scaler.Types.{DeviceInfo, ComposableDraSpec, ModelConstraints, NodeInfo}
use dynamic_device_scaler.Effects.{Error, message, Result, ok, err}

-- `notIn`
abbrev pub not_in : {A : Type 0} ⦃e : Eq A⦄ → A → List A → Bool
not_in target slice = not (contains slice target)

-- `indexToModel`: a map, so a later entry of an index replaces an earlier one.
index_to_model : List DeviceInfo → (ℤ → Option Text) → ℤ → Option Text
index_to_model [] table = table
index_to_model (d ∷ ds) table =
    index_to_model ds (λ i. if d.index == i then some d.cdi_model_name else table i)

abbrev names_model : Text → Option Text → Bool
names_model model (some m) = m == model
names_model model none = false

-- The loop over the device infos, which stops at the first of model 1.
excludes : Text → Text → (ℤ → Option Text) → List DeviceInfo → Bool
excludes model1 model2 table [] = false
excludes model1 model2 table (d ∷ ds) =
    if d.cdi_model_name == model1
    then any (λ i. names_model model2 (table i)) d.cannot_coexist_with
    else excludes model1 model2 table ds

unfoldable pub is_device_coexistence : Text → Text → ComposableDraSpec → Bool
unfolding index_to_model excludes
is_device_coexistence model1 model2 spec =
    if model1 == model2
    then true
    else not
        (excludes model1 model2 (index_to_model spec.device_infos (λ _. none)) spec.device_infos)

-- `getModelName`
get_model_name_in : Text → List DeviceInfo → Result Text
get_model_name_in device_name [] = err (message "unknown device name")
get_model_name_in device_name (d ∷ ds) =
    if d.k8s_device_name == device_name
    then ok d.cdi_model_name
    else get_model_name_in device_name ds

unfoldable pub get_model_name : ComposableDraSpec → Text → Result Text
unfolding get_model_name_in
get_model_name spec device_name = get_model_name_in device_name spec.device_infos

abbrev pub default_max_device : ℤ
default_max_device = pos 50

abbrev pub default_min_device : ℤ
default_min_device = pos 0

limit_in : Text → List ModelConstraints → ℤ × ℤ
limit_in model [] = (default_max_device, default_min_device)
limit_in model (c ∷ cs) =
    if c.model == model
    then (if c.max_device_set then c.max_device else default_max_device, c.min_device)
    else limit_in model cs

-- `GetModelLimit`: the maximum, then the minimum.
unfoldable pub get_model_limit : NodeInfo → Text → ℤ × ℤ
unfolding limit_in
get_model_limit node model = limit_in model node.models

-- `GetDriverType`
unfoldable pub get_driver_type : Text → Text
get_driver_type model = if model == bytes "gpu.nvidia.com" then bytes "gpu" else []
