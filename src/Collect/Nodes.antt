-- ===== src/Collect/Nodes.antt =====
-- GetNodeInfo and processNodeInfo of internal/utils/info_utils.go: the limits that the labels of a
-- node set.
pub mod Sends
pub mod Order
pub mod Keys
pub mod Limits
pub mod Labelled
pub mod Limited
pub mod Runs
use dynamic_device_scaler.Base.{
  ℕ, zero, suc, ◌+◌, ◌-◌, ◌*◌, leb, ℤ, pos, negsuc, Text, true, false, ◌&&◌, Option, none, some,
  List, [], ◌∷◌, ◌++◌, lookup, ◌==◌, nat_eq, text_eq, bytes, if◌then◌else◌,
}
use dynamic_device_scaler.Types.{ComposableDraSpec, ModelConstraints, NodeInfo}
use dynamic_device_scaler.Kube.{Node}
use dynamic_device_scaler.Effects.{
  message, wrapped, Result, ok, err, pure, lift, wrap, ◌>>=◌, Environment, Program, request,
  observe,
}
use dynamic_device_scaler.Models.{get_model_name}
use dynamic_device_scaler.Reschedule.{keys_of}
use dynamic_device_scaler.Collect.Claims.{after}

-- The number of a text of digits, or nothing.
abbrev digits_from : ℕ → Text → Option ℕ
digits_from value [] = some value
digits_from value (b ∷ bs) =
    if leb b'0' b && leb b b'9' then digits_from (value * 10 + (b - b'0')) bs else none

abbrev digits : Text → Option ℕ
digits [] = none
digits (b ∷ bs) = digits_from 0 (b ∷ bs)

-- The bounds of an int of 64 bits.
abbrev as_positive : Option ℕ → Option ℤ
as_positive none = none
as_positive (some n) = if leb n 0x7fff_ffff_ffff_ffff then some (pos n) else none

abbrev negated : ℕ → ℤ
negated zero = pos 0
negated (suc n) = negsuc n

abbrev as_negative : Option ℕ → Option ℤ
as_negative none = none
as_negative (some n) = if leb n 0x8000_0000_0000_0000 then some (negated n) else none

-- `strconv.Atoi`, on a machine with an int of 64 bits.
unfoldable pub atoi : Text → Option ℤ
atoi [] = none
atoi (b ∷ bs) =
    if b == b'-'
    then as_negative (digits bs)
    else if b == b'+'
    then as_positive (digits bs)
    else as_positive (digits (b ∷ bs))

-- The text before a suffix, if it ends in the suffix.
abbrev pub before_suffix : Text → Text → Option Text
before_suffix suffix [] = if suffix == [] then some [] else none
before_suffix suffix (b ∷ bs) =
    if suffix == b ∷ bs
    then some []
    else elim (before_suffix suffix bs) [ none ↦ none | some rest ↦ some (b ∷ rest) ]

-- What a label sets of the limits of a device.
pub data Bound : Type 0 where
  max_of min_of : Bound

-- The fields that a label sets.
abbrev pub set_bound : Bound → Text → ℤ → ModelConstraints → ModelConstraints
set_bound max_of model n c = record c { max_device = n; model = model; max_device_set = true }
set_bound min_of model n c = record c { min_device = n; model = model }

abbrev pub no_limits : Text → ModelConstraints
no_limits device_name = record {
  model = [];
  device_name = device_name;
  max_device = pos 0;
  min_device = pos 0;
  max_device_set = false;
}

-- The loop over `nodeInfo.Models`, and the append where the device has no entry.
unfoldable pub put_bound : Bound → Text → Text → ℤ → List ModelConstraints → List ModelConstraints
put_bound bound device_name model n [] = set_bound bound model n (no_limits device_name) ∷ []
put_bound bound device_name model n (c ∷ cs) =
    if c.device_name == device_name
    then set_bound bound model n c ∷ cs
    else c ∷ put_bound bound device_name model n cs

abbrev or_other : Option Text → Option Text → Option (Bound × Text)
or_other (some name) other = some (max_of, name)
or_other none (some name) = some (min_of, name)
or_other none none = none

-- What the key of a label is about: a bound of a device, or nothing of interest.
unfoldable pub bound_of_key : Text → Text → Option (Bound × Text)
bound_of_key prefix key = elim (after (prefix ++ bytes "/") key) [
  | none ↦ none
  | some suffix ↦
      or_other (before_suffix (bytes "-size-max") suffix) (before_suffix (bytes "-size-min") suffix)
]

abbrev integer_of : Text → Result ℤ
integer_of text = elim (atoi text) [
  | none ↦ err (wrapped "invalid integer" (message "strconv.Atoi"))
  | some n ↦ ok n
]

module _ (env : Environment) (spec : ComposableDraSpec) where
  abbrev apply_label :
      Option (Bound × Text) → Text → List ModelConstraints → Program env (List ModelConstraints)
  apply_label none value models = pure models
  apply_label (some (bound, device_name)) value models = do
    n ← lift (integer_of value)
    model ← lift (get_model_name spec device_name)
    pure (put_bound bound device_name model n models)

  abbrev value_at : Text → List (Text × Text) → Text
  value_at key labels = elim (lookup key labels) [ none ↦ [] | some value ↦ value ]

  -- The loop over the labels of a node.
  unfoldable pub labels_models :
      List (Text × Text) → List Text → List ModelConstraints → Program env (List ModelConstraints)
  unfolding bound_of_key
  labels_models labels [] models = pure models
  labels_models labels (key ∷ keys) models =
      apply_label (bound_of_key spec.label_prefix key) (value_at key labels) models >>= λ models'.
      labels_models labels keys models'

  -- The body of the loop over the nodes.
  node_info : Node → Program env NodeInfo
  unfolding labels_models
  node_info node = do
    keys ← observe (env.range_keys (keys_of node.labels))
    models ← labels_models node.labels keys []
    pure (record { name = node.name; models = models })

  unfoldable pub process_node_info : List Node → Program env (List NodeInfo)
  unfolding node_info
  process_node_info [] = pure []
  process_node_info (node ∷ nodes) = do
    info ← node_info node
    rest ← process_node_info nodes
    pure (info ∷ rest)

  -- `GetNodeInfo`
  unfoldable pub get_node_info : Program env (List NodeInfo)
  unfolding process_node_info
  get_node_info = do
    nodes ← wrap "failed to list Nodes" (request env.list_nodes)
    process_node_info nodes
