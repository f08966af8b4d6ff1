-- ===== src/NodeLabel/Labels.antt =====
-- What UpdateNodeLabel patches: the labels of the devices that can still be added, and the others.
use dynamic_device_scaler.Base.{
  ℤ, ◌≤◌, Text, not, ◌&&◌, ◌||◌, Option, none, some, List, [], ◌∷◌, ◌++◌, ◌≡◌, refl, ap, any,
  contains, lookup, length, All, ◌==◌, text_eq, int_eq, bytes, Bool-cases, inl, inr, if◌then◌else◌,
  arith,
}
use dynamic_device_scaler.Types.{DeviceInfo, ComposableDraSpec, NodeInfo}
use dynamic_device_scaler.Kube.{ComposabilityRequest, ComposableResource, Write, patch_node_labels}
use dynamic_device_scaler.Effects.{done, Environment}
use dynamic_device_scaler.Patch.{max_retries, labels_patch, patch_node_label}
use dynamic_device_scaler.Patch.Labels.{lookup-labels_patch}
use dynamic_device_scaler.Patch.Requests.{
  submit_round, submit_round-Ensures, submit_round-writes-le,
}
use dynamic_device_scaler.Patch.Retry.{retry-Ensures, retry-writes-le}
use dynamic_device_scaler.NodeLabel.{
  installed_devices, not_coexist_ids, device_label, labels_in, node_labels, update_node_label,
}
use dynamic_device_scaler.NodeLabel.Excluded.{
  contains-append, any-cong, is_ruled_out, contains-not_coexist_ids,
}

module _ (prefix : Text) (ids : List ℤ) (label : Text) where
  labels_in-added :
      (ds : List DeviceInfo) (added deleted : List Text)
      → contains (labels_in prefix ids ds (added, deleted)).0 label ≡ (
          contains added label
          || any (λ d. not (contains ids d.index) && device_label prefix d == label) ds)
  unfolding labels_in
  labels_in-added [] added deleted = ground arith
  labels_in-added (d ∷ ds) added deleted = elim (Bool-cases (contains ids d.index)) [
    | inl e ↦ rw (labels_in, e, labels_in-added ds added (deleted ++ device_label prefix d ∷ []))
    | inr e ↦
        rw
          (
            labels_in,
            e,
            labels_in-added ds (added ++ device_label prefix d ∷ []) deleted,
            contains-append added (device_label prefix d ∷ []) label,
          )
          (ground arith)
  ]

  labels_in-deleted :
      (ds : List DeviceInfo) (added deleted : List Text)
      → contains (labels_in prefix ids ds (added, deleted)).1 label ≡ (
          contains deleted label
          || any (λ d. contains ids d.index && device_label prefix d == label) ds)
  unfolding labels_in
  labels_in-deleted [] added deleted = ground arith
  labels_in-deleted (d ∷ ds) added deleted = elim (Bool-cases (contains ids d.index)) [
    | inl e ↦
        rw
          (
            labels_in,
            e,
            labels_in-deleted ds added (deleted ++ device_label prefix d ∷ []),
            contains-append deleted (device_label prefix d ∷ []) label,
          )
          (ground arith)
    | inr e ↦ rw (labels_in, e, labels_in-deleted ds (added ++ device_label prefix d ∷ []) deleted)
  ]

module _ (requests : List ComposabilityRequest) (resources : List ComposableResource)
    (node : NodeInfo) (spec : ComposableDraSpec) where
  -- What becomes of a label: it goes if a device of the name is ruled out, it is "true" if there
  -- is another device of the name, and any other label stays.
  abbrev pub label_value : Text → Option (Option Text)
  label_value label =
      if any
        (λ d.
          is_ruled_out requests resources node spec d.index
          && device_label spec.label_prefix d == label)
        spec.device_infos
      then some none
      else if any
          (λ d.
            not (is_ruled_out requests resources node spec d.index)
            && device_label spec.label_prefix d == label)
          spec.device_infos
      then some (some (bytes "true"))
      else none

  pub record SetsLabels (w : Write) : Type 0 where
    pub labels : List (Text × Option Text)
    pub written : w ≡ patch_node_labels node.name labels
    pub values : (label : Text) → lookup label labels ≡ label_value label

  abbrev pub patch_of : List ℤ → List (Text × Option Text)
  patch_of ids = labels_patch (node_labels ids spec).0 (node_labels ids spec).1

  pub lookup-patch_of :
      (label : Text)
      → lookup label
          (patch_of (not_coexist_ids (installed_devices node.name requests resources) node spec))
        ≡ label_value label
  unfolding node_labels
  lookup-patch_of label =
      let ids = not_coexist_ids (installed_devices node.name requests resources) node spec in
      let out = contains-not_coexist_ids requests resources node spec in
      rw (
        lookup-labels_patch (node_labels ids spec).0 (node_labels ids spec).1 label,
        labels_in-added spec.label_prefix ids label spec.device_infos [] [],
        labels_in-deleted spec.label_prefix ids label spec.device_infos [] [],
        any-cong (λ d. contains ids d.index && device_label spec.label_prefix d == label)
            (λ d.
              is_ruled_out requests resources node spec d.index
              && device_label spec.label_prefix d == label)
            spec.device_infos
            (λ d. ap (λ b. b && device_label spec.label_prefix d == label) (out d.index)),
        any-cong (λ d. not (contains ids d.index) && device_label spec.label_prefix d == label)
            (λ d.
              not (is_ruled_out requests resources node spec d.index)
              && device_label spec.label_prefix d == label)
            spec.device_infos
            (λ d. ap (λ b. not b && device_label spec.label_prefix d == label) (out d.index)),
      )

module _ (env : Environment) (node : NodeInfo) (spec : ComposableDraSpec) (s : env.State)
    (requests : List ComposabilityRequest) (resources : List ComposableResource)
    (first : (env.list_requests s).0 ≡ done requests)
    (second : (env.list_resources (env.list_requests s).1).0 ≡ done resources) where
  -- Where the requests and the resources are listed, the only writes patch the labels of the node,
  -- at most twice, and set each label by the devices of its name: to null if one of them is ruled
  -- out, since an installed model (requested for the node or online there) lists its index or the
  -- node has a maximum of 0 for it, and else to "true"; a label of no device is left alone.
  pub update_node_label-SetsLabels :
      All (SetsLabels requests resources node spec) (update_node_label env node spec s).writes
      × (length (update_node_label env node spec s).writes ≤ max_retries)
  unfolding update_node_label patch_node_label
  update_node_label-SetsLabels =
      let ids = not_coexist_ids (installed_devices node.name requests resources) node spec in
      let labels = patch_of requests resources node spec ids in
      let w = patch_node_labels node.name labels in
      let round = submit_round env "patch failed" w in
      let good : SetsLabels requests resources node spec w = record {
        labels = labels;
        written = refl;
        values = lookup-patch_of requests resources node spec;
      } in
      rw (first, second)
        (
          (retry-Ensures max_retries none round
                (submit_round-Ensures env "patch failed" w good)).sends
              (env.list_resources (env.list_requests s).1).1,
          retry-writes-le max_retries none round (env.list_resources (env.list_requests s).1).1
              (submit_round-writes-le env "patch failed" w),
        )
