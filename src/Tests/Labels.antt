-- ===== src/Tests/Labels.antt =====
-- The labels of the sample node.
use dynamic_device_scaler.Base.{[], ◌∷◌, ◌≡◌, ◌≤◌, refl, some, none, All, length, bytes, text_beq}
use dynamic_device_scaler.Patch.{max_retries}
use dynamic_device_scaler.NodeLabel.{update_node_label}
use dynamic_device_scaler.NodeLabel.Labels.{label_value, SetsLabels, update_node_label-SetsLabels}
use dynamic_device_scaler.Tests.Cluster.{at_noon}
use dynamic_device_scaler.Tests.Samples.{node_info, spec, resource_infos, request_a, cluster}

update_node_label-SetsLabels_example :
    All
      (SetsLabels (request_a ∷ []) resource_infos node_info spec)
      (update_node_label at_noon node_info spec cluster).writes
    × (length (update_node_label at_noon node_info spec cluster).writes ≤ max_retries)
update_node_label-SetsLabels_example =
    update_node_label-SetsLabels at_noon node_info spec cluster (request_a ∷ []) resource_infos refl
      refl

-- Devices of model A are there, so that the label of the other model goes.
two_labels :
    (label_value (request_a ∷ []) resource_infos node_info spec (bytes "p/a")
      ≡ some (some (bytes "true")))
    × (label_value (request_a ∷ []) resource_infos node_info spec (bytes "p/b") ≡ some none)
unfolding text_beq
two_labels = (refl, refl)
