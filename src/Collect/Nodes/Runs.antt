-- ===== src/Collect/Nodes/Runs.antt =====
-- GetNodeInfo as a sequence of calls that never panics.
use dynamic_device_scaler.Base.{ℤ, refl, ◌≡◌, Text, Option, none, some, List, [], ◌∷◌}
use dynamic_device_scaler.Types.{ComposableDraSpec, ModelConstraints}
use dynamic_device_scaler.Kube.{Node}
use dynamic_device_scaler.Effects.{
  Environment, lift, pure, observe, wrap, request, ◌>>=◌, Runs, Any, Returns, lists_nodes,
  pure-Runs, lift-Runs, range-Runs, read-Runs, >>=-Runs,
}
use dynamic_device_scaler.Models.{get_model_name}
use dynamic_device_scaler.Models.Returns.{get_model_name-Returns}
use dynamic_device_scaler.Reschedule.{keys_of}
use dynamic_device_scaler.Collect.Nodes.{
  Bound, atoi, bound_of_key, integer_of, apply_label, value_at, labels_models, node_info,
  process_node_info, get_node_info,
}

integer_in-Returns : (o : Option ℤ) (text : Text) → atoi text ≡ o → Returns Any (integer_of text)
integer_in-Returns none text e = rw (e, Returns) tt
integer_in-Returns (some n) text e = rw (e, Returns) tt

module _ (env : Environment) (spec : ComposableDraSpec) where
  apply_label-Runs :
      (o : Option (Bound × Text)) (value : Text) (models : List ModelConstraints)
      → Runs env Any (apply_label env spec o value models)
  apply_label-Runs none value models = pure-Runs models tt
  apply_label-Runs (some (bound, device_name)) value models =
      >>=-Runs {Q = Any} (lift (integer_of value)) _
        (lift-Runs (integer_of value) (integer_in-Returns (atoi value) value refl))
        λ n _.
          >>=-Runs {Q = Any} (lift (get_model_name spec device_name)) _
            (lift-Runs _ (get_model_name-Returns spec device_name)) λ model _. pure-Runs _ tt

  labels_models-Runs :
      (labels : List (Text × Text)) (keys : List Text) (models : List ModelConstraints)
      → Runs env Any (labels_models env spec labels keys models)
  unfolding labels_models
  labels_models-Runs labels [] models = pure-Runs models tt
  labels_models-Runs labels (key ∷ keys) models =
      >>=-Runs {Q = Any} _ _
        (apply_label-Runs (bound_of_key spec.label_prefix key) (value_at env spec key labels)
          models)
        λ models' _. labels_models-Runs labels keys models'

  node_info-Runs : (node : Node) → Runs env Any (node_info env spec node)
  unfolding node_info
  node_info-Runs node =
      >>=-Runs {Q = Any} (observe (env.range_keys (keys_of node.labels)))
        (λ keys. labels_models env spec node.labels keys [] >>= λ models.
          pure (record { name = node.name; models = models }))
        (range-Runs env (keys_of node.labels))
        λ keys _.
          >>=-Runs {Q = Any} (labels_models env spec node.labels keys [])
            (λ models. pure (record { name = node.name; models = models }))
            (labels_models-Runs node.labels keys []) λ models _. pure-Runs _ tt

  process_node_info-Runs : (nodes : List Node) → Runs env Any (process_node_info env spec nodes)
  unfolding process_node_info
  process_node_info-Runs [] = pure-Runs [] tt
  process_node_info-Runs (node ∷ nodes) =
      >>=-Runs {Q = Any} (node_info env spec node)
        (λ info. process_node_info env spec nodes >>= λ rest. pure (info ∷ rest))
        (node_info-Runs node)
        λ info _.
          >>=-Runs {Q = Any} (process_node_info env spec nodes) (λ rest. pure (info ∷ rest))
            (process_node_info-Runs nodes) λ rest _. pure-Runs (info ∷ rest) tt

  pub get_node_info-Runs : Runs env Any (get_node_info env spec)
  unfolding get_node_info
  get_node_info-Runs =
      >>=-Runs {Q = Any} (wrap "failed to list Nodes" (request env.list_nodes)) _
        (read-Runs env "failed to list Nodes" env.list_nodes (λ s. lists_nodes refl))
        λ nodes _. process_node_info-Runs nodes
