-- ===== src/Tests/Listed.antt =====
-- The limits of a node, the names of pools and the listed claims, at concrete inputs.
use dynamic_device_scaler.Base.{◌≡◌, refl, List, [], ◌∷◌, map, pos, select, true, bytes, text_beq}
use dynamic_device_scaler.Types.{NodeInfo}
use dynamic_device_scaler.Kube.{Node}
use dynamic_device_scaler.Effects.{ok}
use dynamic_device_scaler.Models.{get_model_name}
use dynamic_device_scaler.Collect.Nodes.{
  atoi, put_bound, bound_of_key, labels_models, process_node_info,
}
use dynamic_device_scaler.Collect.Nodes.Limited.{AllLimited, process_node_info-AllLimited}
use dynamic_device_scaler.Collect.Claims.{device_name_of_pool}
use dynamic_device_scaler.Collect.Claims.Pools.{Trims, device_name_of_pool-Trims}
use dynamic_device_scaler.Collect.Claims.Complete.{
  is_waiting, name_of_claim, name_of_info, resource_claim_infos-names,
}
use dynamic_device_scaler.Tests.Samples.{
  node, cluster, configured, configured-RangesOver, spec, model_a,
}
use dynamic_device_scaler.Tests.Collected.{waiting, waiting_infos, collected}

abbrev labelled : List Node
labelled =
    record {
      name = node;
      labels =
          (bytes "p/a-size-min", bytes "1")
          ∷ (bytes "q/a-size-max", bytes "9")
          ∷ (bytes "p/a-size-max", bytes "4")
          ∷ [];
    }
    ∷ record { name = bytes "m"; labels = [] }
    ∷ []

abbrev limits : List NodeInfo
limits =
    record {
      name = node;
      models =
          record {
            model = model_a;
            device_name = bytes "a";
            max_device = pos 4;
            min_device = pos 1;
            max_device_set = true;
          }
          ∷ [];
    }
    ∷ record { name = bytes "m"; models = [] }
    ∷ []

processed : (process_node_info configured spec labelled cluster).result ≡ ok limits
unfolding process_node_info labels_models put_bound bound_of_key atoi get_model_name text_beq
processed = refl

process_node_info-AllLimited_example : AllLimited spec labelled limits
process_node_info-AllLimited_example =
    process_node_info-AllLimited configured configured-RangesOver spec labelled limits cluster
      processed

device_name_of_pool-Trims_example :
    Trims (bytes "a-fabric1") (device_name_of_pool (bytes "a-fabric1"))
device_name_of_pool-Trims_example = device_name_of_pool-Trims (bytes "a-fabric1")

resource_claim_infos-names_example :
    map name_of_info waiting_infos ≡ map name_of_claim (select is_waiting (waiting ∷ []))
resource_claim_infos-names_example =
    resource_claim_infos-names spec [] (waiting ∷ []) waiting_infos collected
