-- ===== src/Tests/Scaling.antt =====
-- The counts, the next size and the sizes that a reconcile asks for, at concrete inputs.
use dynamic_device_scaler.Base.{
  pos, Text, true, false, some, none, ◌≡◌, ◌≢◌, refl, In, All, text_beq, text_eq, bytes,
}
use dynamic_device_scaler.Types.{ResourceSliceDevice, ResourceSliceInfo}
use dynamic_device_scaler.Effects.{ok}
use dynamic_device_scaler.Kube.{ComposabilityRequest}
use dynamic_device_scaler.Usage.{is_device_resource_slice_red, get_configured_device_count}
use dynamic_device_scaler.Usage.Slices.{IsListed, is_device_resource_slice_red_lem}
use dynamic_device_scaler.Usage.Count.{get_configured_device_count-result}
use dynamic_device_scaler.LastUsed.{sub_time}
use dynamic_device_scaler.LastUsed.Age.{over_at, IsSteady}
use dynamic_device_scaler.Scaling.{get_next_size, dynamic_detach}
use dynamic_device_scaler.Scaling.Detach.{Shrinks, dynamic_detach-sends}
use dynamic_device_scaler.Scaling.NextSize.{HasAge, get_next_size-result}
use dynamic_device_scaler.Tests.Cluster.{at_noon, at_noon-NamesAgree, with_claims}
use dynamic_device_scaler.Tests.Samples.{
  model_a, model_b, node, claim_infos, slice_infos, resource_infos, request_a, cluster,
}

is_device_resource_slice_red_lem_example :
    ((slice : ResourceSliceInfo) (name : Text)
      → is_device_resource_slice_red (bytes "u2") slice_infos ≡ some (slice, name)
      → IsListed (bytes "u2") slice_infos slice name)
    × (is_device_resource_slice_red (bytes "u2") slice_infos ≡ none
        → (slice : ResourceSliceInfo) (d : ResourceSliceDevice) → In slice slice_infos
        → In d slice.devices
        → d.uuid ≢ bytes "u2")
is_device_resource_slice_red_lem_example = is_device_resource_slice_red_lem (bytes "u2") slice_infos

-- Two devices are waited for, and one of the two resources is in use.
get_configured_device_count-result_example :
    (get_configured_device_count
      (with_claims cluster.claims)
      model_a
      node
      claim_infos
      slice_infos
      cluster).result
    ≡ ok 3
unfolding is_device_resource_slice_red text_beq
get_configured_device_count-result_example =
    get_configured_device_count-result (with_claims cluster.claims) cluster.claims (λ s. refl)
      model_a node slice_infos claim_infos resource_infos cluster refl

still : IsSteady at_noon (pos 200)
still = λ s. refl

aged : All (HasAge at_noon (pos 200) (bytes "p") (pos 100) node) resource_infos
unfolding over_at sub_time text_beq
aged = (λ _. (false, refl), (λ _. (true, refl), tt))

-- One of the two resources was used recently.
get_next_size-result_example :
    (get_next_size at_noon (pos 0) node (bytes "p") (pos 100) cluster).result ≡ ok (pos 1)
unfolding over_at sub_time text_beq
get_next_size-result_example =
    get_next_size-result at_noon (pos 200) still (bytes "p") (pos 100) node resource_infos aged
      cluster refl (pos 0)

-- A request of one device of model B, which no resource is of, is not shrunk.
abbrev request_b : ComposabilityRequest
request_b = record {
  name = bytes "qb";
  resource = record { type = bytes "gpu"; model = model_b; size = pos 1; target_node = node };
}

dynamic_detach-sends_example :
    All
      (Shrinks request_a (pos 0))
      (dynamic_detach at_noon request_a (pos 0) node (bytes "p") (pos 100) cluster).writes
dynamic_detach-sends_example =
    dynamic_detach-sends at_noon at_noon-NamesAgree request_a (pos 0) node (bytes "p") (pos 100)
      cluster
