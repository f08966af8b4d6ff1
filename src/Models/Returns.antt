-- ===== src/Models/Returns.antt =====
-- The search of the model of a device name never panics.
use dynamic_device_scaler.Base.{Text, List, [], ◌∷◌, ◌==◌, text_eq}
use dynamic_device_scaler.Types.{DeviceInfo, ComposableDraSpec}
use dynamic_device_scaler.Effects.{Returns, Any}
use dynamic_device_scaler.Effects.Results.{if-Returns}
use dynamic_device_scaler.Models.{get_model_name_in, get_model_name}

get_model_name_in-Returns :
    (name : Text) (infos : List DeviceInfo) → Returns Any (get_model_name_in name infos)
unfolding get_model_name_in
get_model_name_in-Returns name [] = tt
get_model_name_in-Returns name (d ∷ ds) =
    if-Returns Any (d.k8s_device_name == name) _ _ tt (get_model_name_in-Returns name ds)

pub get_model_name-Returns :
    (spec : ComposableDraSpec) (name : Text) → Returns Any (get_model_name spec name)
unfolding get_model_name
get_model_name-Returns spec name = get_model_name_in-Returns name spec.device_infos
