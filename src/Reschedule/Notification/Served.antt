-- ===== src/Reschedule/Notification/Served.antt =====
-- The writes of RescheduleNotification, and what it takes for a claim to be served.
use dynamic_device_scaler.Base.{
  ℕ, zero, suc, ◌<◌, ◌≤◌, Text, true, false, not, List, [], ◌∷◌, map, any, ◌≡◌, refl, sym, subst,
  In, All, count_if, get_elem?, set, inl, inr, ◌==◌, text_eq, arith,
}
use dynamic_device_scaler.Types.{
  preparing, state_eq, ResourceClaimDevice, ResourceClaimInfo, ResourceSliceInfo,
}
use dynamic_device_scaler.Kube.{ComposableResource, Write, patch_annotation}
use dynamic_device_scaler.LastUsed.{last_used_label}
use dynamic_device_scaler.Patch.Claims.{SetsCondition}
use dynamic_device_scaler.Reschedule.{fabric_device_reschedule}
use dynamic_device_scaler.Reschedule.States.{all_preparing, all_preparing_in}
use dynamic_device_scaler.Reschedule.Notification.Counts.{is_device_of}
use dynamic_device_scaler.Reschedule.Notification.Matching.{Distinct, name_of, is_of, IsUsable}

-- The claim waits for all of its devices, and there is a usable resource of its own for each.
pub record Serves (resources : List ComposableResource) (slices : List ResourceSliceInfo)
    (rc : ResourceClaimInfo) (taken : List ComposableResource) : Type 0 where
  pub waits : all_preparing rc ≡ true
  pub usable : All (IsUsable resources slices rc.node_name) taken
  pub distinct : Distinct (map name_of taken)
  pub enough :
      (model : Text) → count_if (is_device_of model) rc.devices ≤ count_if (is_of model) taken

-- A write for a claim that can be served.
pub data Notifies (resources : List ComposableResource) (slices : List ResourceSliceInfo)
    (prefix : Text) (claims : List ResourceClaimInfo) (w : Write) : Type 0 where
  -- It tells the scheduler of the claim.
  told :
      (rc : ResourceClaimInfo) (taken : List ComposableResource)
      → In rc claims
      → Serves resources slices rc taken
      → SetsCondition rc.name rc.namespace fabric_device_reschedule w
      → Notifies resources slices prefix claims w
  -- It sets the last-used time of a resource that the claim takes.
  touched :
      (rc : ResourceClaimInfo) (taken : List ComposableResource) (r : ComposableResource)
      (time : Text)
      → In rc claims
      → Serves resources slices rc taken
      → In r taken
      → w ≡ patch_annotation r.name (last_used_label prefix) time
      → Notifies resources slices prefix claims w

pub In-map_name :
    (name : Text) (taken : List ComposableResource)
    → In name (map name_of taken)
    → (r : ComposableResource) × In r taken × (name ≡ r.name)
In-map_name name [] m = absurd m
In-map_name name (r ∷ taken) (inl e) = (r, inl refl, e)
In-map_name name (r ∷ taken) (inr m) = let (x, n, e) = In-map_name name taken m in (x, inr n, e)

pub all_preparing_of :
    (ds : List ResourceClaimDevice)
    → any (λ d. not (d.state == preparing)) ds ≡ false
    → all_preparing_in ds ≡ true
all_preparing_of [] h = refl
all_preparing_of (d ∷ ds) h = ground (arith, all_preparing_of ds)

pub get_elem?-set_other :
    (xs : List ResourceClaimInfo) (k i : ℕ) (v : ResourceClaimInfo)
    → k < i
    → get_elem? (set xs k v) i ≡ get_elem? xs i
get_elem?-set_other [] k i v lt = refl
get_elem?-set_other (x ∷ xs) zero zero v lt = absurd (omega arith)
get_elem?-set_other (x ∷ xs) zero (suc i) v lt = refl
get_elem?-set_other (x ∷ xs) (suc k) zero v lt = refl
get_elem?-set_other (x ∷ xs) (suc k) (suc i) v lt = get_elem?-set_other xs k i v (omega arith)

pub at : (P : Text → Type 0) (xs : List Text) (x : Text) → All P xs → In x xs → P x
at P [] x h m = absurd m
at P (y ∷ xs) x h (inl e) = subst P (sym e) h.0
at P (y ∷ xs) x h (inr m) = at P xs x h.1 m
