-- ===== src/Collect/Nodes/Sends.antt =====
-- The collection of the nodes sends nothing.
use dynamic_device_scaler.Base.{Text, Option, none, some, List, [], ◌∷◌}
use dynamic_device_scaler.Types.{ComposableDraSpec, ModelConstraints}
use dynamic_device_scaler.Kube.{Node, Write}
use dynamic_device_scaler.Effects.{
  Environment, lift, pure, observe, wrap, request, ◌>>=◌, Ensures, Always, pure-Ensures,
  lifted-Ensures, observe-Ensures, read-Ensures, >>=-Ensures,
}
use dynamic_device_scaler.Models.{get_model_name}
use dynamic_device_scaler.Reschedule.{keys_of}
use dynamic_device_scaler.Collect.Nodes.{
  Bound, bound_of_key, integer_of, apply_label, value_at, labels_models, node_info,
  process_node_info, get_node_info,
}

module _ (env : Environment) (spec : ComposableDraSpec) {P : Write → Type 0} where
  apply_label-Ensures :
      (o : Option (Bound × Text)) (value : Text) (models : List ModelConstraints)
      → Ensures P Always (apply_label env spec o value models)
  apply_label-Ensures none value models = pure-Ensures models tt
  apply_label-Ensures (some (bound, device_name)) value models =
      >>=-Ensures {Q = Always} (lift (integer_of value)) _ (lifted-Ensures (integer_of value))
        λ n _.
          >>=-Ensures {Q = Always} (lift (get_model_name spec device_name)) _
            (lifted-Ensures (get_model_name spec device_name)) λ model _. pure-Ensures _ tt

  labels_models-Ensures :
      (labels : List (Text × Text)) (keys : List Text) (models : List ModelConstraints)
      → Ensures P Always (labels_models env spec labels keys models)
  unfolding labels_models
  labels_models-Ensures labels [] models = pure-Ensures models tt
  labels_models-Ensures labels (key ∷ keys) models =
      >>=-Ensures {Q = Always} _ _
        (apply_label-Ensures (bound_of_key spec.label_prefix key) (value_at env spec key labels)
          models)
        λ models' _. labels_models-Ensures labels keys models'

  node_info-Ensures : (node : Node) → Ensures P Always (node_info env spec node)
  unfolding node_info
  node_info-Ensures node =
      >>=-Ensures {Q = Always} (observe (env.range_keys (keys_of node.labels)))
        (λ keys. labels_models env spec node.labels keys [] >>= λ models.
          pure (record { name = node.name; models = models }))
        (observe-Ensures (env.range_keys (keys_of node.labels)) (λ s. tt))
        λ keys _.
          >>=-Ensures {Q = Always} (labels_models env spec node.labels keys [])
            (λ models. pure (record { name = node.name; models = models }))
            (labels_models-Ensures node.labels keys []) λ models _. pure-Ensures _ tt

  process_node_info-Ensures :
      (nodes : List Node) → Ensures P Always (process_node_info env spec nodes)
  unfolding process_node_info
  process_node_info-Ensures [] = pure-Ensures [] tt
  process_node_info-Ensures (node ∷ nodes) =
      >>=-Ensures {Q = Always} (node_info env spec node)
        (λ info. process_node_info env spec nodes >>= λ rest. pure (info ∷ rest))
        (node_info-Ensures node)
        λ info _.
          >>=-Ensures {Q = Always} (process_node_info env spec nodes) (λ rest. pure (info ∷ rest))
            (process_node_info-Ensures nodes) λ rest _. pure-Ensures (info ∷ rest) tt

  pub get_node_info-Ensures : Ensures P Always (get_node_info env spec)
  unfolding get_node_info
  get_node_info-Ensures =
      >>=-Ensures {Q = Always} (wrap "failed to list Nodes" (request env.list_nodes)) _
        (read-Ensures "failed to list Nodes" env.list_nodes)
        λ nodes _. process_node_info-Ensures nodes
