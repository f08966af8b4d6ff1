-- ===== src/NodeLabel.antt =====
-- UpdateNodeLabel of internal/utils/patch_utils.go: the labels that tell which device models can
-- still be added to a node.
pub mod Excluded
pub mod Labels
pub mod Runs
use dynamic_device_scaler.Base.{
  ℤ, pos, ltb_ℤ, Text, Bool, ◌&&◌, List, [], ◌∷◌, ◌++◌, ◌==◌, text_eq, int_eq, bytes, if◌then◌else◌,
}
use dynamic_device_scaler.Types.{DeviceInfo, ComposableDraSpec, ModelConstraints, NodeInfo}
use dynamic_device_scaler.Kube.{ComposabilityRequest, ComposableResource, is_online}
use dynamic_device_scaler.Effects.{wrap, ◌>>=◌, Environment, Program, request}
use dynamic_device_scaler.Models.{not_in}
use dynamic_device_scaler.Patch.{patch_node_label}

-- `if notIn(x, xs) { xs = append(xs, x) }`
abbrev pub add_new : Text → List Text → List Text
add_new x xs = if not_in x xs then xs ++ x ∷ [] else xs

abbrev pub requests_device : Text → ComposabilityRequest → Bool
requests_device node_name cr =
    cr.resource.target_node == node_name && ltb_ℤ (pos 0) cr.resource.size

abbrev pub holds_device : Text → ComposableResource → Bool
holds_device node_name r = r.target_node == node_name && is_online r.state

pub requested_models : Text → List ComposabilityRequest → List Text → List Text
requested_models node_name [] installed = installed
requested_models node_name (cr ∷ crs) installed =
    requested_models node_name crs
      (if requests_device node_name cr then add_new cr.resource.model installed else installed)

pub online_models : Text → List ComposableResource → List Text → List Text
online_models node_name [] installed = installed
online_models node_name (r ∷ rs) installed =
    online_models node_name rs
      (if holds_device node_name r then add_new r.model installed else installed)

unfoldable pub installed_devices :
    Text → List ComposabilityRequest → List ComposableResource → List Text
unfolding requested_models online_models
installed_devices node_name requests resources =
    online_models node_name resources (requested_models node_name requests [])

-- The indexes that one installed model excludes.
pub excluded_by_model : Text → List DeviceInfo → List ℤ → List ℤ
excluded_by_model model [] ids = ids
excluded_by_model model (d ∷ ds) ids =
    excluded_by_model model ds
      (if model == d.cdi_model_name then ids ++ d.cannot_coexist_with else ids)

pub excluded_by_models : List Text → List DeviceInfo → List ℤ → List ℤ
unfolding excluded_by_model
excluded_by_models [] infos ids = ids
excluded_by_models (m ∷ ms) infos ids = excluded_by_models ms infos (excluded_by_model m infos ids)

pub indexes_of_device : Text → List DeviceInfo → List ℤ → List ℤ
indexes_of_device device_name [] ids = ids
indexes_of_device device_name (d ∷ ds) ids =
    indexes_of_device device_name ds
      (if device_name == d.k8s_device_name then ids ++ d.index ∷ [] else ids)

abbrev pub is_barred : ModelConstraints → Bool
is_barred c = c.max_device_set && c.max_device == pos 0

-- The indexes that the node rules out by a maximum of 0.
pub excluded_by_limits : List ModelConstraints → List DeviceInfo → List ℤ → List ℤ
unfolding indexes_of_device
excluded_by_limits [] infos ids = ids
excluded_by_limits (c ∷ cs) infos ids =
    excluded_by_limits cs infos
      (if is_barred c then indexes_of_device c.device_name infos ids else ids)

-- `notCoexistID`
unfoldable pub not_coexist_ids : List Text → NodeInfo → ComposableDraSpec → List ℤ
unfolding excluded_by_models excluded_by_limits
not_coexist_ids installed node spec =
    excluded_by_limits node.models spec.device_infos
      (excluded_by_models installed spec.device_infos [])

abbrev pub device_label : Text → DeviceInfo → Text
device_label label_prefix d = label_prefix ++ (bytes "/" ++ d.k8s_device_name)

pub labels_in : Text → List ℤ → List DeviceInfo → List Text × List Text → List Text × List Text
labels_in label_prefix ids [] labels = labels
labels_in label_prefix ids (d ∷ ds) (added, deleted) = labels_in label_prefix ids ds (
    if not_in d.index ids
    then (added ++ device_label label_prefix d ∷ [], deleted)
    else (added, deleted ++ device_label label_prefix d ∷ []))

-- The labels to add and those to delete.
unfoldable pub node_labels : List ℤ → ComposableDraSpec → List Text × List Text
unfolding labels_in
node_labels ids spec = labels_in spec.label_prefix ids spec.device_infos ([], [])

module _ (env : Environment) where
  unfoldable pub update_node_label : NodeInfo → ComposableDraSpec → Program env (Unit {0})
  update_node_label node spec = do
    requests ← wrap "failed to list composabilityRequestList" (request env.list_requests)
    resources ← wrap "failed to list ComposableResourceList" (request env.list_resources)
    let ids = not_coexist_ids (installed_devices node.name requests resources) node spec
    let labels = node_labels ids spec
    patch_node_label env node.name labels.0 labels.1
