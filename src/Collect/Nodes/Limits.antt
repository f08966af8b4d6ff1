-- ===== src/Collect/Nodes/Limits.antt =====
-- The limits that the labels of a node set, in whatever order the labels are visited.
use dynamic_device_scaler.Base.{
  ℤ, pos, ◌≡◌, ◌≢◌, refl, sym, ap, ◌∙◌, subst, Text, Bool, true, false, ◌||◌, Option, none, some,
  List, lookup, ◌==◌, ==_iff, text_eq, Bool-cases, inl, inr, if◌then◌else◌, arith,
}
use mathlib.Core.Option.{some-injective}
use dynamic_device_scaler.Types.{ComposableDraSpec, ModelConstraints}
use dynamic_device_scaler.Effects.{Result, ok, Environment, lift, >>=-ok}
use dynamic_device_scaler.Effects.Results.{ok-injective}
use dynamic_device_scaler.Models.{get_model_name}
use dynamic_device_scaler.Collect.Nodes.{
  Bound, max_of, min_of, set_bound, put_bound, bound_of_key, integer_of, apply_label,
}
use dynamic_device_scaler.Collect.Nodes.Order.{entry, entry_or_new, entry-put_bound}
use dynamic_device_scaler.Collect.Nodes.Keys.{label_key, bound_of_key-label_key, label_key-of_bound}

abbrev pub is_some : Option Text → Bool
is_some none = false
is_some (some text) = true

-- The number of a label, and 0 without it.
abbrev pub bound_value : Option Text → Result ℤ
bound_value none = ok (pos 0)
bound_value (some text) = integer_of text

module _ (spec : ComposableDraSpec) (d : Text) where
  -- What the entry of a device says, by the values of its two labels.
  abbrev pub LimitsAre : Option Text → Option Text → Option ModelConstraints → Type 0
  LimitsAre highest lowest none = (highest ≡ none) × (lowest ≡ none)
  LimitsAre highest lowest (some c) =
      (get_model_name spec d ≡ ok c.model)
      × (c.max_device_set ≡ is_some highest)
      × (bound_value highest ≡ ok c.max_device)
      × (bound_value lowest ≡ ok c.min_device)

  set_max :
      (name model value : Text) (n : ℤ) (highest lowest : Option Text) (o : Option ModelConstraints)
      → LimitsAre highest lowest o
      → get_model_name spec d ≡ ok model
      → integer_of value ≡ ok n
      → LimitsAre (some value) lowest (some (set_bound max_of model n (entry_or_new name o)))
  set_max name model value n highest lowest none h m v = (m, refl, v, ap bound_value h.1)
  set_max name model value n highest lowest (some c) h m v = (m, refl, v, h.3)

  set_min :
      (name model value : Text) (n : ℤ) (highest lowest : Option Text) (o : Option ModelConstraints)
      → LimitsAre highest lowest o
      → get_model_name spec d ≡ ok model
      → integer_of value ≡ ok n
      → LimitsAre highest (some value) (some (set_bound min_of model n (entry_or_new name o)))
  set_min name model value n highest lowest none h m v =
      (m, sym (ap is_some h.0), ap bound_value h.0, v)
  set_min name model value n highest lowest (some c) h m v = (m, h.1, h.2, v)

-- The values of the labels that have been visited.
abbrev pub seen_label : List (Text × Text) → (Text → Bool) → Text → Option Text
seen_label labels seen key = if seen key then lookup key labels else none

abbrev pub also : Text → (Text → Bool) → Text → Bool
also key seen k = key == k || seen k

seen_other :
    (labels : List (Text × Text)) (key k : Text) (seen : Text → Bool)
    → (key == k) ≡ false
    → seen_label labels (also key seen) k ≡ seen_label labels seen k
seen_other labels key k seen h = rw h

seen_self :
    (labels : List (Text × Text)) (key k value : Text) (seen : Text → Bool)
    → (key == k) ≡ true
    → lookup key labels ≡ some value
    → seen_label labels (also key seen) k ≡ some value
seen_self labels key k value seen h e =
    rw h (subst (λ (x : Text). lookup x labels ≡ some value) ((==_iff key k).0 h) e)

module _ (env : Environment) (spec : ComposableDraSpec) (labels : List (Text × Text)) where
  abbrev pub prefix : Text
  prefix = spec.label_prefix

  abbrev pub Holds : (Text → Bool) → List ModelConstraints → Type 0
  Holds seen models =
      (d : Text)
      → LimitsAre spec d (seen_label labels seen (label_key prefix max_of d))
          (seen_label labels seen (label_key prefix min_of d)) (entry d models)

  -- A label of another bound or device.
  other_label :
      (key : Text) (bound : Bound) (d : Text)
      → bound_of_key prefix key ≢ some (bound, d)
      → (key == label_key prefix bound d) ≡ false
  other_label key bound d h = elim (Bool-cases (key == label_key prefix bound d)) [
    | inl e ↦
        let same = (==_iff key (label_key prefix bound d)).0 e in
        absurd (h (ap (bound_of_key prefix) same ∙ bound_of_key-label_key prefix bound d))
    | inr e ↦ e
  ]

  this_label :
      (key : Text) (bound : Bound) (d : Text)
      → bound_of_key prefix key ≡ some (bound, d)
      → (key == label_key prefix bound d) ≡ true
  this_label key bound d h =
      (==_iff key (label_key prefix bound d)).1 (label_key-of_bound prefix key bound d h)

  -- A label that is about no bound changes nothing.
  Holds-skip :
      (key : Text) (seen : Text → Bool) (models : List ModelConstraints)
      → bound_of_key prefix key ≡ none
      → Holds seen models
      → Holds (also key seen) models
  Holds-skip key seen models none_of h d =
      rw
        (
          seen_other labels key (label_key prefix max_of d) seen
              (other_label key max_of d (λ e. cc (e, none_of))),
          seen_other labels key (label_key prefix min_of d) seen
              (other_label key min_of d (λ e. cc (e, none_of))),
        )
        (h d)

  module _ (key name model value : Text) (n : ℤ) (seen : Text → Bool)
      (models : List ModelConstraints) (read : lookup key labels ≡ some value)
      (known : get_model_name spec name ≡ ok model) (number : integer_of value ≡ ok n)
      (h : Holds seen models) where
    put_own :
        (bound : Bound) (d : Text)
        → bound_of_key prefix key ≡ some (bound, name)
        → name ≡ d
        → LimitsAre spec d
            (seen_label labels (also key seen) (label_key prefix max_of d))
            (seen_label labels (also key seen) (label_key prefix min_of d))
            (some (set_bound bound model n (entry_or_new name (entry d models))))
    put_own max_of d about same =
        let mine : bound_of_key prefix key ≡ some (max_of, d) =
          about ∙ ap (λ x. some (max_of, x)) same in
        rw
          (
            seen_self labels key (label_key prefix max_of d) value seen
                (this_label key max_of d mine) read,
            seen_other labels key (label_key prefix min_of d) seen
                (other_label key min_of d (λ e. cc (e, mine))),
          )
          (set_max spec d name model value n _ _ (entry d models) (h d)
            (subst (λ (x : Text). get_model_name spec x ≡ ok model) same known) number)
    put_own min_of d about same =
        let mine : bound_of_key prefix key ≡ some (min_of, d) =
          about ∙ ap (λ x. some (min_of, x)) same in
        rw
          (
            seen_self labels key (label_key prefix min_of d) value seen
                (this_label key min_of d mine) read,
            seen_other labels key (label_key prefix max_of d) seen
                (other_label key max_of d (λ e. cc (e, mine))),
          )
          (set_min spec d name model value n _ _ (entry d models) (h d)
            (subst (λ (x : Text). get_model_name spec x ≡ ok model) same known) number)

    differs :
        (bound bound' : Bound) (d : Text)
        → bound_of_key prefix key ≡ some (bound, name)
        → name ≢ d
        → bound_of_key prefix key ≢ some (bound', d)
    differs bound bound' d about apart e =
        apart (
          ap (λ (x : Bound × Text). x.1) (some-injective (bound, name) (bound', d) (sym about ∙ e)))

    Holds-put :
        (bound : Bound)
        → bound_of_key prefix key ≡ some (bound, name)
        → Holds (also key seen) (put_bound bound name model n models)
    Holds-put bound about d = elim (Bool-cases (name == d)) [
      | inl e ↦
          rw (entry-put_bound bound name model n models d, e)
            (put_own bound d about ((==_iff name d).0 e))
      | inr e ↦
          let apart : name ≢ d = λ same. ground (arith, ==_iff name d) in
          rw
            (
              entry-put_bound bound name model n models d,
              e,
              seen_other labels key (label_key prefix max_of d) seen
                  (other_label key max_of d (differs bound max_of d about apart)),
              seen_other labels key (label_key prefix min_of d) seen
                  (other_label key min_of d (differs bound min_of d about apart)),
            )
            (h d)
    ]

  -- The body of the loop.
  pub apply_label-Holds :
      (o : Option (Bound × Text)) (key value : Text) (seen : Text → Bool)
      (models out : List ModelConstraints) (s : env.State)
      → bound_of_key prefix key ≡ o
      → lookup key labels ≡ some value
      → Holds seen models
      → (apply_label env spec o value models s).result ≡ ok out
      → Holds (also key seen) out
  apply_label-Holds none key value seen models out s about read h e =
      subst (Holds (also key seen)) (ok-injective models out e) (Holds-skip key seen models about h)
  apply_label-Holds (some (bound, name)) key value seen models out s about read h e =
      let (n, number, e1, _) = >>=-ok (lift (integer_of value)) _ s e in
      let (model, known, e2, _) = >>=-ok (lift (get_model_name spec name)) _ s e1 in
      subst (Holds (also key seen)) (ok-injective _ out e2)
        (Holds-put key name model value n seen models read known number h bound about)
