-- ===== src/Tests/Samples.antt =====
-- One node with two device models that exclude one another, and the objects around them.
use dynamic_device_scaler.Base.{ℤ, pos, Text, true, some, none, List, [], ◌∷◌, bytes}
use dynamic_device_scaler.Types.{
  DeviceInfo, ComposableDraSpec, NodeInfo, preparing, DeviceState, ResourceClaimDevice,
  ResourceClaimInfo, ResourceSliceInfo,
}
use dynamic_device_scaler.Kube.{
  DeviceResult, ResourceClaim, ComposabilityRequest, ComposableResource, online,
}
use dynamic_device_scaler.Effects.{conflict, done, Environment, NamesAgree, RangesOver}
use dynamic_device_scaler.Controller.{Settings}
use dynamic_device_scaler.Tests.Cluster.{Cluster, at_noon, at_noon-NamesAgree, at_noon-RangesOver}

abbrev pub model_a : Text
model_a = bytes "A"

abbrev pub model_b : Text
model_b = bytes "B"

abbrev pub node : Text
node = bytes "n"

abbrev info : ℤ → Text → Text → List ℤ → DeviceInfo
info index model device excluded = record {
  index = index;
  cdi_model_name = model;
  dra_attributes = [];
  label_key_model = [];
  driver_name = bytes "gpu.nvidia.com";
  k8s_device_name = device;
  cannot_coexist_with = excluded;
}

abbrev pub spec : ComposableDraSpec
spec = record {
  device_infos =
      info (pos 1) model_a (bytes "a") (pos 2 ∷ [])
      ∷ info (pos 2) model_b (bytes "b") (pos 1 ∷ [])
      ∷ [];
  label_prefix = bytes "p";
  fabric_id_range = [];
}

abbrev pub node_info : NodeInfo
node_info = record {
  name = node;
  models =
      record {
        model = model_a;
        device_name = bytes "a";
        max_device = pos 4;
        min_device = pos 0;
        max_device_set = true;
      }
      ∷ [];
}

abbrev claim_device : Text → DeviceState → ResourceClaimDevice
claim_device model state = record {
  name = bytes "d";
  model = model;
  state = state;
  driver = bytes "v";
  pool = bytes "free";
}

abbrev claim_of : Text → ℤ → Text → ResourceClaimInfo
claim_of name created model = record {
  name = name;
  node_name = node;
  creation_timestamp = created;
  namespace = bytes "s";
  devices = claim_device model preparing ∷ [];
}

abbrev pub claim_x : ResourceClaimInfo
claim_x = claim_of (bytes "x") (pos 10) model_a

abbrev pub claim_y : ResourceClaimInfo
claim_y = claim_of (bytes "y") (pos 20) model_b

abbrev pub claim_z : ResourceClaimInfo
claim_z = claim_of (bytes "z") (pos 5) model_a

-- Three claims that wait for a device each, one of a model that the others exclude.
abbrev pub claim_infos : List ResourceClaimInfo
claim_infos = claim_x ∷ claim_y ∷ claim_z ∷ []

abbrev pub device_result : Text → DeviceResult
device_result device = record {
  driver = bytes "v";
  pool = bytes "p";
  device = device;
  binding_conditions = [];
  binding_failure_conditions = [];
}

abbrev claim : Text → ResourceClaim
claim name = record {
  name = name;
  namespace = bytes "s";
  creation_timestamp = pos 10;
  reserved_for = bytes "pod" ∷ [];
  allocation = some (record { results = device_result (bytes "d1") ∷ []; node_selector = none });
  devices = [];
}

abbrev pub slice_infos : List ResourceSliceInfo
slice_infos =
    record {
      name = bytes "rs";
      node_name = node;
      creation_timestamp = pos 1;
      driver = bytes "v";
      devices =
          record { name = bytes "d1"; uuid = bytes "u1" }
          ∷ record { name = bytes "d2"; uuid = bytes "u2" }
          ∷ [];
      pool = bytes "p";
    }
    ∷ []

-- A resource that was last used at an instant, the code of the letter.
abbrev resource : Text → Text → Text → Text → ComposableResource
resource name model device_id used = record {
  name = name;
  annotations = some ((bytes "p/last-used-time", used) ∷ []);
  creation_timestamp = pos 2;
  deletion_timestamp = none;
  model = model;
  target_node = node;
  state = online;
  device_id = device_id;
}

abbrev pub resource_infos : List ComposableResource
resource_infos =
    resource (bytes "r1") model_a (bytes "u1") (bytes "z")
    ∷ resource (bytes "r2") model_a (bytes "u2") (bytes "a")
    ∷ []

abbrev pub request_a : ComposabilityRequest
request_a = record {
  name = bytes "q";
  resource = record { type = bytes "gpu"; model = model_a; size = pos 2; target_node = node };
}

-- The server refuses the first write with a conflict.
abbrev pub cluster : Cluster
cluster = record {
  claims = claim (bytes "x") ∷ claim (bytes "y") ∷ claim (bytes "z") ∷ [];
  slices = [];
  nodes = record { name = node; labels = (bytes "p/a-size-max", bytes "4") ∷ [] } ∷ [];
  requests = request_a ∷ [];
  resources = resource_infos;
  refusals = conflict ∷ [];
}

-- All durations in nanoseconds of the clock that stands at 200.
abbrev pub settings : Settings
settings = record {
  scan_interval = pos 60;
  device_no_removal = pos 100;
  device_no_allocation = pos 100;
}

-- The cluster with the ConfigMap of the specification.
abbrev pub configured : Environment
configured = record at_noon {
  get_config_map =
      λ namespace name c. (done (record { entries = (bytes "label-prefix", bytes "p") ∷ [] }), c);
  decode_device_infos = λ text. some spec.device_infos;
}

pub configured-NamesAgree : NamesAgree configured
configured-NamesAgree = record {
  request_named = at_noon-NamesAgree.request_named;
  claim_named = at_noon-NamesAgree.claim_named;
}

pub configured-RangesOver : RangesOver configured
configured-RangesOver = record {
  every_key = at_noon-RangesOver.every_key;
  only_keys = at_noon-RangesOver.only_keys;
}
