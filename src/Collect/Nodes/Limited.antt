-- ===== src/Collect/Nodes/Limited.antt =====
-- GetModelLimit gives the numbers of the labels, in whatever order the labels were visited.
use dynamic_device_scaler.Base.{
  ℤ, ◌≡◌, refl, sym, ap, ◌∙◌, subst, Text, false, Option, none, some, List, [], ◌∷◌, All, contains,
  contains_iff, lookup, ◌==◌, ==_iff, text_eq, Bool-cases, inl, inr, find_first, arith,
}
use dynamic_device_scaler.Types.{ComposableDraSpec, ModelConstraints, NodeInfo}
use dynamic_device_scaler.Kube.{Node}
use dynamic_device_scaler.Effects.{Result, ok, Environment, RangesOver, >>=-ok}
use dynamic_device_scaler.Effects.Results.{ok-injective}
use dynamic_device_scaler.Models.{
  default_max_device, default_min_device, get_model_name, get_model_limit,
}
use dynamic_device_scaler.Models.Limits.{limits_of, get_model_limit-eq}
use dynamic_device_scaler.Reschedule.{keys_of}
use dynamic_device_scaler.Collect.Nodes.{
  max_of, min_of, integer_of, labels_models, node_info, process_node_info,
}
use dynamic_device_scaler.Collect.Nodes.Order.{entry}
use dynamic_device_scaler.Collect.Nodes.Keys.{label_key}
use dynamic_device_scaler.Collect.Nodes.Limits.{LimitsAre, seen_label}
use dynamic_device_scaler.Collect.Nodes.Labelled.{
  seen_after, seen_after-eq, lookup-none_of, labels_models-Holds, Knows, labels_models-Knows,
}

-- The number of a label, or what stands for it where the node has no such label.
abbrev pub number_or : ℤ → Option Text → Result ℤ
number_or default none = ok default
number_or default (some text) = integer_of text

-- The info of a node: under its name, and for each model that has one device name with the limits
-- that the two labels of that device set.
pub record LimitedBy (spec : ComposableDraSpec) (node : Node) (info : NodeInfo) : Type 0 where
  pub same_name : info.name ≡ node.name
  pub highest :
      (device_name model : Text)
      → get_model_name spec device_name ≡ ok model
      → ((other : Text) → get_model_name spec other ≡ ok model → other ≡ device_name)
      → number_or default_max_device
          (lookup (label_key spec.label_prefix max_of device_name) node.labels)
        ≡ ok (get_model_limit info model).0
  pub lowest :
      (device_name model : Text)
      → get_model_name spec device_name ≡ ok model
      → ((other : Text) → get_model_name spec other ≡ ok model → other ≡ device_name)
      → number_or default_min_device
          (lookup (label_key spec.label_prefix min_of device_name) node.labels)
        ≡ ok (get_model_limit info model).1

-- One info for each node, in order.
abbrev pub AllLimited : ComposableDraSpec → List Node → List NodeInfo → Type 0
AllLimited spec [] [] = Unit
AllLimited spec (node ∷ nodes) (info ∷ infos) =
    LimitedBy spec node info × AllLimited spec nodes infos
AllLimited spec [] (info ∷ infos) = ⊥
AllLimited spec (node ∷ nodes) [] = ⊥

module _ (spec : ComposableDraSpec) (d model : Text) (known : get_model_name spec d ≡ ok model)
    (one : (other : Text) → get_model_name spec other ≡ ok model → other ≡ d) where
  -- The first entry of the model is the entry of its device.
  first_of_model :
      (cs : List ModelConstraints)
      → All (Knows spec) cs
      → find_first (λ c. c.model == model) cs ≡ entry d cs
  first_of_model [] h = refl
  first_of_model (c ∷ cs) h = elim (Bool-cases (c.model == model)) [
    | inl e ↦
        let same : c.device_name ≡ d =
          one c.device_name (h.0 ∙ ap ok ((==_iff c.model model).0 e)) in
        rw (e, (==_iff c.device_name d).1 same) refl
    | inr e ↦ elim (Bool-cases (c.device_name == d)) [
      | inl f ↦
          let known_here : get_model_name spec c.device_name ≡ ok model =
            ap (get_model_name spec) ((==_iff c.device_name d).0 f) ∙ known in
          let same = ok-injective c.model model (sym h.0 ∙ known_here) in
          absurd (ground (arith, ==_iff c.model model))
      | inr f ↦ rw (e, f) (first_of_model cs h.1)
    ]
  ]

  highest_of :
      (m n : Option Text) (o : Option ModelConstraints)
      → LimitsAre spec d m n o
      → number_or default_max_device m ≡ ok (limits_of o).0
  highest_of m n none h = ap (number_or default_max_device) h.0
  highest_of none n (some c) h = rw h.1 refl
  highest_of (some text) n (some c) h = rw h.1 h.2

  lowest_of :
      (m n : Option Text) (o : Option ModelConstraints)
      → LimitsAre spec d m n o
      → number_or default_min_device n ≡ ok (limits_of o).1
  lowest_of m n none h = ap (number_or default_min_device) h.1
  lowest_of m none (some c) h = h.3
  lowest_of m (some text) (some c) h = h.3

module _ (env : Environment) (ranges : RangesOver env) (spec : ComposableDraSpec) where
  -- Once all the labels are visited.
  all_seen :
      (labels : List (Text × Text)) (s : env.State) (key : Text)
      → let keys = (env.range_keys (keys_of labels) s).0 in
        seen_label labels (seen_after keys (λ _. false)) key ≡ lookup key labels
  all_seen labels s key =
      let keys = (env.range_keys (keys_of labels) s).0 in
      rw (seen_after-eq keys (λ _. false) key) (elim (Bool-cases (contains keys key)) [
        | inl e ↦ rw e refl
        | inr e ↦
            let absent : contains (keys_of labels) key ≡ false =
              elim (Bool-cases (contains (keys_of labels) key)) [
                | inl f ↦
                    let visited =
                      ranges.every_key (keys_of labels) s key
                        ((contains_iff (keys_of labels) key).0 f) in
                    absurd (ground (arith, (contains_iff keys key).1 visited))
                | inr f ↦ f
              ] in
            rw e (sym (lookup-none_of key labels absent))
      ])

  -- What the entries of a node say when its labels have been read.
  labels-LimitsAre :
      (labels : List (Text × Text)) (models : List ModelConstraints) (s : env.State)
      → let (keys, t) = env.range_keys (keys_of labels) s in
        (labels_models env spec labels keys [] t).result ≡ ok models
        → (d : Text)
        → LimitsAre spec d
            (lookup (label_key spec.label_prefix max_of d) labels)
            (lookup (label_key spec.label_prefix min_of d) labels)
            (entry d models)
  labels-LimitsAre labels models s e d =
      let (keys, t) = env.range_keys (keys_of labels) s in
      let held =
        labels_models-Holds env spec labels keys (λ _. false) [] models t
          (λ key m. ranges.only_keys (keys_of labels) s key m) (λ d. (refl, refl)) e d in
      rw
        (
          ← all_seen labels s (label_key spec.label_prefix max_of d),
          ← all_seen labels s (label_key spec.label_prefix min_of d),
        )
        held

  limited :
      (node : Node) (models : List ModelConstraints) (s : env.State)
      → let (keys, t) = env.range_keys (keys_of node.labels) s in
        (labels_models env spec node.labels keys [] t).result ≡ ok models
        → LimitedBy spec node (record { name = node.name; models = models })
  limited node models s e =
      let (keys, t) = env.range_keys (keys_of node.labels) s in
      let knows = labels_models-Knows env spec node.labels keys [] models t tt e in
      let info : NodeInfo = record { name = node.name; models = models } in
      record {
        same_name = refl;
        highest = λ d model known one.
            rw (get_model_limit-eq info model, first_of_model spec d model known one models knows)
              (highest_of spec d model known one _ _ (entry d models)
                (labels-LimitsAre node.labels models s e d));
        lowest = λ d model known one.
            rw (get_model_limit-eq info model, first_of_model spec d model known one models knows)
              (lowest_of spec d model known one _ _ (entry d models)
                (labels-LimitsAre node.labels models s e d));
      }

  node_info-LimitedBy :
      (node : Node) (info : NodeInfo) (s : env.State)
      → (node_info env spec node s).result ≡ ok info
      → LimitedBy spec node info
  unfolding node_info
  node_info-LimitedBy node info s h =
      let (keys, t) = env.range_keys (keys_of node.labels) s in
      let (models, e1, e2, _) = >>=-ok (labels_models env spec node.labels keys []) _ t h in
      subst (LimitedBy spec node) (ok-injective _ info e2) (limited node models s e1)

  -- Where the nodes are processed, there is one info for each node, in order and under its name. For
  -- a model that one device name has, GetModelLimit gives the numbers of the labels that the node
  -- has for that device, a maximum of 50 where it has no label -size-max and a minimum of 0 where it
  -- has no label -size-min, in whatever order the labels were visited.
  pub process_node_info-AllLimited :
      (nodes : List Node) (infos : List NodeInfo) (s : env.State)
      → (process_node_info env spec nodes s).result ≡ ok infos
      → AllLimited spec nodes infos
  unfolding process_node_info
  process_node_info-AllLimited [] infos s h =
      subst (AllLimited spec []) (ok-injective [] infos h) tt
  process_node_info-AllLimited (node ∷ nodes) infos s h =
      let step = node_info env spec node in
      let (info, e1, e2, _) = >>=-ok step _ s h in
      let (rest, e3, e4, _) = >>=-ok (process_node_info env spec nodes) _ (step s).state e2 in
      subst (AllLimited spec (node ∷ nodes)) (ok-injective (info ∷ rest) infos e4) (
        node_info-LimitedBy node info s e1,
        process_node_info-AllLimited nodes rest (step s).state e3,
      )
