-- ===== src/Collect/Nodes/Labelled.antt =====
-- The limits that processNodeInfo collects for a node are those that its labels set.
use dynamic_device_scaler.Base.{
  ℤ, ◌≡◌, refl, subst, Text, Bool, false, ◌||◌, Option, none, some, List, [], ◌∷◌, In, All,
  contains, lookup, ◌==◌, ==_iff, text_eq, Bool-cases, inl, inr, arith,
}
use dynamic_device_scaler.Types.{ComposableDraSpec, ModelConstraints}
use dynamic_device_scaler.Effects.{ok, Environment, lift, >>=-ok}
use dynamic_device_scaler.Effects.Results.{ok-injective}
use dynamic_device_scaler.Models.{get_model_name}
use dynamic_device_scaler.Reschedule.{keys_of}
use dynamic_device_scaler.Collect.Nodes.{
  Bound, max_of, min_of, set_bound, put_bound, bound_of_key, integer_of, apply_label, value_at,
  labels_models,
}
use dynamic_device_scaler.Collect.Nodes.Limits.{also, Holds, apply_label-Holds}

abbrev pub seen_after : List Text → (Text → Bool) → Text → Bool
seen_after [] seen = seen
seen_after (key ∷ keys) seen = seen_after keys (also key seen)

pub seen_after-eq :
    (keys : List Text) (seen : Text → Bool) (k : Text)
    → seen_after keys seen k ≡ (contains keys k || seen k)
seen_after-eq [] seen k = refl
seen_after-eq (key ∷ keys) seen k = ground (arith, seen_after-eq keys (also key seen) k)

pub lookup-none_of :
    (key : Text) (labels : List (Text × Text))
    → contains (keys_of labels) key ≡ false
    → lookup key labels ≡ none
lookup-none_of key [] h = refl
lookup-none_of key ((k, v) ∷ labels) h = ground (arith, lookup-none_of key labels)

lookup-some_of :
    (key : Text) (labels : List (Text × Text))
    → In key (keys_of labels)
    → (value : Text) × (lookup key labels ≡ some value)
lookup-some_of key [] m = absurd m
lookup-some_of key ((k, v) ∷ labels) m = elim (Bool-cases (k == key)) [
  | inl e ↦ (v, rw e refl)
  | inr e ↦
      let later : In key (keys_of labels) = ground (arith, ==_iff k key) in
      let (value, p) = lookup-some_of key labels later in (value, rw e p)
]

-- The model of an entry is that of its device.
abbrev pub Knows : ComposableDraSpec → ModelConstraints → Type 0
Knows spec c = get_model_name spec c.device_name ≡ ok c.model

module _ (env : Environment) (spec : ComposableDraSpec) where
  lookup-value_at :
      (key : Text) (labels : List (Text × Text))
      → In key (keys_of labels)
      → lookup key labels ≡ some (value_at env spec key labels)
  lookup-value_at key labels m = let (value, e) = lookup-some_of key labels m in ground arith

  module _ (labels : List (Text × Text)) where
    pub labels_models-Holds :
        (keys : List Text) (seen : Text → Bool) (models out : List ModelConstraints) (s : env.State)
        → ((key : Text) → In key keys → In key (keys_of labels))
        → Holds env spec labels seen models
        → (labels_models env spec labels keys models s).result ≡ ok out
        → Holds env spec labels (seen_after keys seen) out
    unfolding labels_models
    labels_models-Holds [] seen models out s m h e =
        subst (Holds env spec labels seen) (ok-injective models out e) h
    labels_models-Holds (key ∷ keys) seen models out s m h e =
        let step =
          apply_label env spec (bound_of_key spec.label_prefix key) (value_at env spec key labels)
            models in
        let (models', e1, e2, _) = >>=-ok step (labels_models env spec labels keys) s e in
        labels_models-Holds keys (also key seen) models' out (step s).state (λ k n. m k (inr n))
          (apply_label-Holds env spec labels (bound_of_key spec.label_prefix key) key
            (value_at env spec key labels) seen models models' s refl
            (lookup-value_at key labels (m key (inl refl))) h e1)
          e2

  set_bound-Knows :
      (bound : Bound) (name model : Text) (n : ℤ) (c : ModelConstraints)
      → get_model_name spec name ≡ ok model
      → c.device_name ≡ name
      → Knows spec (set_bound bound model n c)
  set_bound-Knows max_of name model n c k e = rw e k
  set_bound-Knows min_of name model n c k e = rw e k

  put_bound-Knows :
      (bound : Bound) (name model : Text) (n : ℤ) (cs : List ModelConstraints)
      → get_model_name spec name ≡ ok model
      → All (Knows spec) cs
      → All (Knows spec) (put_bound bound name model n cs)
  unfolding put_bound
  put_bound-Knows max_of name model n [] k h = (k, tt)
  put_bound-Knows min_of name model n [] k h = (k, tt)
  put_bound-Knows bound name model n (c ∷ cs) k h = elim (Bool-cases (c.device_name == name)) [
    | inl e ↦ rw e (set_bound-Knows bound name model n c k ((==_iff c.device_name name).0 e), h.1)
    | inr e ↦ rw e (h.0, put_bound-Knows bound name model n cs k h.1)
  ]

  apply_label-Knows :
      (o : Option (Bound × Text)) (value : Text) (models out : List ModelConstraints)
      (s : env.State)
      → All (Knows spec) models
      → (apply_label env spec o value models s).result ≡ ok out
      → All (Knows spec) out
  apply_label-Knows none value models out s h e =
      subst (All (Knows spec)) (ok-injective models out e) h
  apply_label-Knows (some (bound, name)) value models out s h e =
      let (n, number, e1, _) = >>=-ok (lift (integer_of value)) _ s e in
      let (model, known, e2, _) = >>=-ok (lift (get_model_name spec name)) _ s e1 in
      subst (All (Knows spec)) (ok-injective _ out e2)
        (put_bound-Knows bound name model n models known h)

  pub labels_models-Knows :
      (labels : List (Text × Text)) (keys : List Text) (models out : List ModelConstraints)
      (s : env.State)
      → All (Knows spec) models
      → (labels_models env spec labels keys models s).result ≡ ok out
      → All (Knows spec) out
  unfolding labels_models
  labels_models-Knows labels [] models out s h e =
      subst (All (Knows spec)) (ok-injective models out e) h
  labels_models-Knows labels (key ∷ keys) models out s h e =
      let o = bound_of_key spec.label_prefix key in
      let step = apply_label env spec o (value_at env spec key labels) models in
      let (models', e1, e2, _) = >>=-ok step (labels_models env spec labels keys) s e in
      labels_models-Knows labels keys models' out (step s).state
        (apply_label-Knows o (value_at env spec key labels) models models' s h e1) e2
