-- ===== src/Tests/Growing.antt =====
-- The sample cluster with a server that keeps the requests that are created, over two reconciles.
use dynamic_device_scaler.Base.{◌+◌, ◌≤◌, ◌≡◌, subst, All, Text, text_eq, [], ◌∷◌, bytes, arith}
use dynamic_device_scaler.Kube.{
  Write, create_request, patch_size, patch_annotation, patch_claim_devices, patch_node_labels,
}
use dynamic_device_scaler.Effects.{
  done, Environment, NamesAgree, OnDone, Runs, Moves, lists_claims, lists_slices, lists_nodes,
  lists_requests, lists_resources, gets_config_map, gets_claim, gets_request, gets_resource,
  reads_clock, ranges,
}
use dynamic_device_scaler.Collect.Claims.Runs.{IsReadableClaim}
use dynamic_device_scaler.Collect.Slices.Runs.{IsReadableSlice}
use dynamic_device_scaler.Controller.Runs.{ListsReadable}
use dynamic_device_scaler.Controller.Creation.{requests_for, creations, OnlyCreator}
use dynamic_device_scaler.Tests.Cluster.{Cluster}
use dynamic_device_scaler.Tests.Samples.{cluster, configured, configured-NamesAgree}

abbrev after_write : Write → Cluster → Cluster
after_write (create_request generate_name details) c = record c {
  requests = record { name = bytes "new"; resource = details } ∷ c.requests;
}
after_write (patch_size request size) c = c
after_write (patch_annotation resource key value) c = c
after_write (patch_claim_devices name namespace devices) c = c
after_write (patch_node_labels node labels) c = c

abbrev pub growing : Environment
growing = record configured {
  list_claims = λ c. (done cluster.claims, c);
  list_slices = λ c. (done [], c);
  submit = λ w c. (done tt, after_write w c);
}

pub growing-NamesAgree : NamesAgree growing
growing-NamesAgree = record {
  request_named = configured-NamesAgree.request_named;
  claim_named = configured-NamesAgree.claim_named;
}

pub growing-ListsReadable : ListsReadable growing
growing-ListsReadable = record {
  readable_claims = λ s claims e. subst (OnDone (All IsReadableClaim)) e (tt, (tt, (tt, tt)));
  readable_slices = λ s slices e. subst (OnDone (All IsReadableSlice)) e tt;
}

growing_moved : (s t : Cluster) → Moves growing s t → s ≡ t
growing_moved s t (lists_claims e) = e
growing_moved s t (lists_slices e) = e
growing_moved s t (lists_nodes e) = e
growing_moved s t (lists_requests e) = e
growing_moved s t (lists_resources e) = e
growing_moved s t (gets_config_map namespace name e) = e
growing_moved s t (gets_claim name namespace e) = e
growing_moved s t (gets_request name e) = e
growing_moved s t (gets_resource name e) = e
growing_moved s t (reads_clock e) = e
growing_moved s t (ranges keys e) = e

growing_submitted :
    (w : Write) (s : Cluster) (model node_name : Text)
    → requests_for model node_name (after_write w s).requests
      ≤ requests_for model node_name s.requests + creations model node_name w
growing_submitted (create_request g d) s model node_name = omega arith
growing_submitted (patch_size request size) s model node_name = omega arith
growing_submitted (patch_annotation r key value) s model node_name = omega arith
growing_submitted (patch_claim_devices name namespace devices) s model node_name = omega arith
growing_submitted (patch_node_labels node labels) s model node_name = omega arith

abbrev growing_only : OnlyCreator growing
growing_only = record {
  stored = λ c. c.requests;
  moved = λ s t m model node_name. rw (growing_moved s t m) (omega arith);
  listed = λ s requests answer model node_name.
      subst
        (OnDone (λ rs. requests_for model node_name s.requests ≤ requests_for model node_name rs))
        answer (omega arith);
  submitted = growing_submitted;
}
