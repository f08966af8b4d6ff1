-- ===== src/Scaling/NextSize.antt =====
-- What DynamicDetach does, as a function of the resources and the clock's reading.
use dynamic_device_scaler.Base.{
  ◌==◌, text_eq, ℕ, suc, ◌+◌, ℤ, pos, ltb_ℤ, Text, Bool, true, false, not, ◌&&◌, List, [], ◌∷◌, ◌≡◌,
  ◌∙◌, ap, All, count_if, Bool-cases, inl, inr, if◌then◌else◌, arith,
}
use dynamic_device_scaler.Types.{Time, Duration}
use dynamic_device_scaler.Kube.{ComposableResource, is_online_or_attaching}
use dynamic_device_scaler.Effects.{done, Result, ok, err, panic, Environment}
use dynamic_device_scaler.LastUsed.{last_used_label}
use dynamic_device_scaler.LastUsed.Age.{over_at, IsSteady, is_last_used_over_threshold-over_at}
use dynamic_device_scaler.Patch.{annotation}
use dynamic_device_scaler.Scaling.{is_nil, is_kept, count_recent, get_next_size}

-- The answer of isLastUsedOverThreshold about a resource.
abbrev pub over : Environment → Time → Text → Duration → ComposableResource → Result Bool
over env now prefix threshold r =
    over_at env now threshold (annotation (last_used_label prefix) r.annotations)
      r.creation_timestamp true

abbrev is_no : Result Bool → Bool
is_no (ok b) = not b
is_no (err e) = false
is_no (panic m) = false

-- A resource that the node has or is about to have, and that is not being deleted.
abbrev pub is_there : Text → ComposableResource → Bool
is_there node_name r =
    is_online_or_attaching r.state && r.target_node == node_name && is_nil r.deletion_timestamp

-- A resource that the node has, of whatever model, and that was used within the threshold.
abbrev pub is_recent : Environment → Time → Text → Duration → Text → ComposableResource → Bool
is_recent env now prefix threshold node_name r =
    is_there node_name r && is_no (over env now prefix threshold r)

-- The resource has an age: if the node keeps it, its annotation parses or it has a creation time.
abbrev pub HasAge : Environment → Time → Text → Duration → Text → ComposableResource → Type 0
HasAge env now prefix threshold node_name r =
    is_there node_name r ≡ true → (b : Bool) × (over env now prefix threshold r ≡ ok b)

recent_step :
    (b : Bool) (count n : ℕ)
    → (if b then count else suc count) + n ≡ count + ((if not b then 1 else 0) + n)
recent_step true count n = omega arith
recent_step false count n = omega arith

module _ (env : Environment) (now : Time) (steady : IsSteady env now) (prefix : Text)
    (threshold : Duration) (node_name : Text) where
  count_recent-result :
      (count : ℕ) (rs : List ComposableResource) (s : env.State)
      → All (HasAge env now prefix threshold node_name) rs
      → (count_recent env node_name prefix threshold count rs s).result
        ≡ ok (count + count_if (is_recent env now prefix threshold node_name) rs)
  unfolding count_recent
  count_recent-result count [] s h = ground arith
  count_recent-result count (r ∷ rs) s h = elim (Bool-cases (is_kept node_name r)) [
    | inl kept ↦
        let (b, e) = h.0 kept in
        let asked = is_last_used_over_threshold-over_at env now steady r prefix threshold true s in
        rw (kept, asked.0, e)
          (count_recent-result (if b then count else suc count) rs _ h.1
            ∙ ap ok (recent_step b count _))
    | inr gone ↦ rw gone (count_recent-result count rs s h.1 ∙ ap ok (recent_step true count _))
  ]

  module _ (rs : List ComposableResource)
      (aged : All (HasAge env now prefix threshold node_name) rs) (s : env.State)
      (listed : (env.list_resources s).0 ≡ done rs) where
    -- The greater of the count and the number of recently used resources on the node.
    pub get_next_size-result :
        (count : ℤ)
        → (get_next_size env count node_name prefix threshold s).result
          ≡ ok (
              let recent = pos (count_if (is_recent env now prefix threshold node_name) rs) in
              if ltb_ℤ recent count then count else recent)
    unfolding get_next_size
    get_next_size-result count =
        rw (listed, count_recent-result 0 rs (env.list_resources s).1 aged) (ground arith)
