-- ===== src/Collect/Nodes/Order.antt =====
-- The limits of a device, and the order in which the labels of a node are visited.
use dynamic_device_scaler.Base.{
  ℤ, Text, false, Option, none, some, List, [], ◌∷◌, ◌≡◌, ◌≢◌, refl, sym, ap, ◌∙◌, find_first,
  Bool-cases, inl, inr, ◌==◌, ==_iff, text_eq, if◌then◌else◌, arith, ◌⊎◌,
}
use dynamic_device_scaler.Types.{ModelConstraints}
use dynamic_device_scaler.Collect.Nodes.{Bound, max_of, min_of, set_bound, no_limits, put_bound}

-- The limits of a device.
abbrev pub entry : Text → List ModelConstraints → Option ModelConstraints
entry device_name = find_first λ c. c.device_name == device_name

abbrev pub entry_or_new : Text → Option ModelConstraints → ModelConstraints
entry_or_new device_name none = no_limits device_name
entry_or_new device_name (some c) = c

device_name-set_bound :
    (bound : Bound) (model : Text) (n : ℤ) (c : ModelConstraints)
    → (set_bound bound model n c).device_name ≡ c.device_name
device_name-set_bound max_of model n c = refl
device_name-set_bound min_of model n c = refl

-- A label sets the limits of its device, and of no other.
pub entry-put_bound :
    (bound : Bound) (name model : Text) (n : ℤ) (cs : List ModelConstraints) (d : Text)
    → entry d (put_bound bound name model n cs) ≡ (
        if name == d
        then some (set_bound bound model n (entry_or_new name (entry d cs)))
        else entry d cs)
unfolding put_bound
entry-put_bound bound name model n [] d = rw (device_name-set_bound bound model n (no_limits name))
entry-put_bound bound name model n (c ∷ cs) d = elim (Bool-cases (c.device_name == name)) [
  | inl e ↦
      let same = (==_iff c.device_name name).0 e in
      rw (e, device_name-set_bound bound model n c, same) (ground arith)
  | inr e ↦ elim (Bool-cases (c.device_name == d)) [
    | inl f ↦
        let other : (name == d) ≡ false =
          ground (arith, ==_iff c.device_name name, ==_iff c.device_name d, ==_iff name d) in
        rw (e, f, other)
    | inr f ↦ rw (e, f, entry-put_bound bound name model n cs d)
  ]
]

set_bound-swap :
    (b1 b2 : Bound) (model : Text) (n1 n2 : ℤ) (c : ModelConstraints)
    → b1 ≢ b2
    → set_bound b1 model n1 (set_bound b2 model n2 c)
      ≡ set_bound b2 model n2 (set_bound b1 model n1 c)
set_bound-swap max_of max_of model n1 n2 c h = absurd (h refl)
set_bound-swap max_of min_of model n1 n2 c h = refl
set_bound-swap min_of max_of model n1 n2 c h = refl
set_bound-swap min_of min_of model n1 n2 c h = absurd (h refl)

-- Two labels that set different bounds, or the bounds of different devices, can be visited in
-- either order: the limits of every device come out the same, if a device has one model.
pub entry-put_bound_swap :
    (b1 b2 : Bound) (name1 name2 model1 model2 : Text) (n1 n2 : ℤ) (cs : List ModelConstraints)
    (d : Text)
    → (b1 ≢ b2) ⊎ (name1 ≢ name2)
    → (name1 ≡ name2 → model1 ≡ model2)
    → entry d (put_bound b1 name1 model1 n1 (put_bound b2 name2 model2 n2 cs))
      ≡ entry d (put_bound b2 name2 model2 n2 (put_bound b1 name1 model1 n1 cs))
entry-put_bound_swap b1 b2 name1 name2 model1 model2 n1 n2 cs d differ agree =
    rw
      (
        entry-put_bound b1 name1 model1 n1 (put_bound b2 name2 model2 n2 cs) d,
        entry-put_bound b2 name2 model2 n2 cs d,
        entry-put_bound b2 name2 model2 n2 (put_bound b1 name1 model1 n1 cs) d,
        entry-put_bound b1 name1 model1 n1 cs d,
      )
      (elim (Bool-cases (name1 == d)) [
        | inl e ↦ elim (Bool-cases (name2 == d)) [
          | inl f ↦
              let same = (==_iff name1 d).0 e ∙ sym ((==_iff name2 d).0 f) in
              let apart : b1 ≢ b2 = elim differ [ inl h ↦ h | inr h ↦ absurd (h same) ] in
              rw (e, f, agree same, same)
                (ap some
                  (set_bound-swap b1 b2 model2 n1 n2 (entry_or_new name2 (entry d cs)) apart))
          | inr f ↦ rw (e, f)
        ]
        | inr e ↦ elim (Bool-cases (name2 == d)) [ inl f ↦ rw (e, f) | inr f ↦ rw (e, f) ]
      ])
