-- ===== src/Tests/Collected.antt =====
-- The collected states and the settings, at concrete inputs.
use dynamic_device_scaler.Base.{
  some, ◌≢◌, inl, ◌*◌, pos, true, false, none, List, [], ◌∷◌, ◌≡◌, refl, All, any, ◌==◌, text_eq,
  text_beq, bytes,
}
use dynamic_device_scaler.Types.{
  ResourceSliceInfo, preparing, ResourceClaimInfo, reschedule, failed,
}
use dynamic_device_scaler.Kube.{ResourceSlice, DeviceStatus}
use dynamic_device_scaler.Effects.{ok}
use dynamic_device_scaler.Patch.{with_conditions}
use dynamic_device_scaler.LastUsed.Age.{IsThreshold}
use dynamic_device_scaler.Reschedule.{fabric_device_failed, fabric_device_reschedule}
use dynamic_device_scaler.Models.{get_model_name}
use dynamic_device_scaler.Collect.Claims.{resource_claim_infos, device_name_of_pool, device_state}
use dynamic_device_scaler.Collect.Claims.States.{has_true, device_state-with_conditions}
use dynamic_device_scaler.Controller.{Settings}
use dynamic_device_scaler.Main.{get_env_as_int, settings_of}
use dynamic_device_scaler.Main.Durations.{IsSetting, settings_of-IsThreshold}
use dynamic_device_scaler.Tests.Cluster.{at_noon}
use dynamic_device_scaler.Kube.{ConfigMap, ResourceClaim}
use dynamic_device_scaler.Collect.Names.{validate_dns_label, is_valid_label_name_prefix}
use dynamic_device_scaler.Collect.Config.{spec_of}
use dynamic_device_scaler.Collect.Config.Accepted.{IsSpec, spec_of-IsSpec}
use dynamic_device_scaler.Collect.Nodes.{max_of, min_of, put_bound}
use dynamic_device_scaler.Collect.Nodes.Order.{entry, entry-put_bound_swap}
use dynamic_device_scaler.Tests.Samples.{node, device_result, cluster, configured, spec, model_a}

abbrev status : DeviceStatus
status = record { driver = bytes "v"; pool = bytes "p"; device = bytes "d1"; conditions = none }

there : any (λ (x : DeviceStatus). x.device == bytes "d1") (status ∷ []) ≡ true
unfolding text_beq
there = refl

device_state-with_conditions_example :
    ((ys : List DeviceStatus) × ((with_conditions at_noon fabric_device_reschedule
          (status ∷ [])
          cluster).result
        ≡ ok ys)
      × (device_state (device_result (bytes "d1")) ys ≡ reschedule))
    × (All (λ x. has_true fabric_device_reschedule x ≡ false) (status ∷ [])
        → (ys : List DeviceStatus) × ((with_conditions at_noon fabric_device_failed
              (status ∷ [])
              cluster).result
            ≡ ok ys)
          × (device_state (device_result (bytes "d1")) ys ≡ failed))
device_state-with_conditions_example =
    device_state-with_conditions at_noon cluster (device_result (bytes "d1")) (status ∷ []) there

pool_of_a_fabric : device_name_of_pool (bytes "a-fabric12") ≡ bytes "a"
unfolding device_name_of_pool
pool_of_a_fabric = refl

abbrev default_settings : Settings
default_settings = record {
  scan_interval = pos (60 * 1000000000);
  device_no_removal = pos (600 * 1000000000);
  device_no_allocation = pos (60 * 1000000000);
}

defaults : settings_of (λ name. []) ≡ ok default_settings
unfolding settings_of get_env_as_int
defaults = refl

settings_of-IsThreshold_example :
    IsSetting default_settings.scan_interval
    × (IsSetting default_settings.device_no_removal
        × IsThreshold default_settings.device_no_removal)
    × (IsSetting default_settings.device_no_allocation
        × IsThreshold default_settings.device_no_allocation)
settings_of-IsThreshold_example = settings_of-IsThreshold (λ name. []) default_settings defaults

-- The ConfigMap of the sample.
abbrev config : ConfigMap
config = record { entries = (bytes "label-prefix", bytes "p") ∷ [] }

accepted : spec_of configured config ≡ ok spec
unfolding spec_of text_beq validate_dns_label is_valid_label_name_prefix
accepted = refl

spec_of-IsSpec_example : IsSpec configured spec
spec_of-IsSpec_example = spec_of-IsSpec configured config spec accepted

max_not_min : max_of ≢ min_of
max_not_min h = cc

entry-put_bound_swap_example :
    entry (bytes "a") (
      put_bound max_of
        (bytes "a")
        model_a
        (pos 4)
        (put_bound min_of (bytes "a") model_a (pos 1) []))
    ≡ entry (bytes "a") (
        put_bound min_of
          (bytes "a")
          model_a
          (pos 1)
          (put_bound max_of (bytes "a") model_a (pos 4) []))
entry-put_bound_swap_example =
    entry-put_bound_swap max_of min_of (bytes "a") (bytes "a") model_a model_a (pos 4) (pos 1) []
      (bytes "a") (inl max_not_min) (λ _. refl)

-- A claim for a device of the fabric pool of the first device, which waits for it.
abbrev pub waiting : ResourceClaim
waiting = record {
  name = bytes "x";
  namespace = bytes "s";
  creation_timestamp = pos 10;
  reserved_for = bytes "pod" ∷ [];
  allocation = some (record {
    results =
        record {
          driver = bytes "v";
          pool = bytes "a-fabric1";
          device = bytes "d1";
          binding_conditions = bytes "FabricDeviceReady" ∷ [];
          binding_failure_conditions = [];
        }
        ∷ [];
    node_selector = none;
  });
  devices = [];
}

abbrev pub waiting_infos : List ResourceClaimInfo
waiting_infos =
    record {
      name = bytes "x";
      node_name = [];
      creation_timestamp = pos 10;
      namespace = bytes "s";
      devices =
          record {
            name = bytes "d1";
            model = model_a;
            state = preparing;
            driver = bytes "v";
            pool = bytes "a-fabric1";
          }
          ∷ [];
    }
    ∷ []

pub collected : resource_claim_infos spec [] (waiting ∷ []) ≡ ok waiting_infos
unfolding resource_claim_infos get_model_name text_beq
collected = refl

-- A slice of the node with one device of a UUID.
abbrev gpu_slice : ResourceSlice
gpu_slice = record {
  name = bytes "rs";
  creation_timestamp = pos 1;
  driver = bytes "gpu.nvidia.com";
  pool_name = bytes "p";
  node_name = some node;
  devices =
      record {
        name = bytes "d1";
        binding_conditions = [];
        attributes = (bytes "uuid", some (bytes "u1")) ∷ [];
      }
      ∷ [];
}

abbrev gpu_slice_infos : List ResourceSliceInfo
gpu_slice_infos =
    record {
      name = bytes "rs";
      node_name = node;
      creation_timestamp = pos 1;
      driver = bytes "gpu.nvidia.com";
      devices = record { name = bytes "d1"; uuid = bytes "u1" } ∷ [];
      pool = bytes "p";
    }
    ∷ []
