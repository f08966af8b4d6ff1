-- ===== src/Collect/Claims/States.antt =====
-- The states that are derived from the conditions that the notifications patch.
use dynamic_device_scaler.Base.{
  Text, Bool, true, false, List, [], ◌∷◌, ◌≡◌, ◌≢◌, refl, subst, ◌∙◌, sym, ◌==◌, ==_iff, text_eq,
  text_beq, any, inl, inr, Bool-cases, arith, All, All-In,
}
use dynamic_device_scaler.Types.{Time, DeviceState, unset, reschedule, failed}
use dynamic_device_scaler.Kube.{DeviceStatus, DeviceResult}
use dynamic_device_scaler.Effects.{ok, Environment}
use dynamic_device_scaler.Conditions.{condition_true, has_condition_with_status}
use dynamic_device_scaler.Patch.{with_condition, with_conditions, conditions_of}
use dynamic_device_scaler.Patch.Conditions.{with_condition_lem}
use dynamic_device_scaler.Reschedule.{fabric_device_failed, fabric_device_reschedule}
use dynamic_device_scaler.Collect.Claims.{state_of_status, state_in, device_state}

-- The conditions of the device tell that it failed, or else is to be scheduled again.
abbrev pub has_true : Text → DeviceStatus → Bool
has_true type x = has_condition_with_status (conditions_of x) type condition_true

-- All of the statuses were patched with a condition, each at its own time.
abbrev pub Patched : Text → List DeviceStatus → List DeviceStatus → Type 0
Patched type [] [] = Unit
Patched type (x ∷ xs) (y ∷ ys) =
    ((now : Time) × (y ≡ with_condition type now x)) × Patched type xs ys
Patched type [] (y ∷ ys) = ⊥
Patched type (x ∷ xs) [] = ⊥

-- A status that tells one state, whatever the state was before.
abbrev Tells : DeviceResult → DeviceState → DeviceStatus → Type 0
Tells d target y = (state : DeviceState) → state_of_status d y.conditions state ≡ target

Tells-reschedule :
    (d : DeviceResult) (x : DeviceStatus) (now : Time)
    → Tells d reschedule (with_condition fabric_device_reschedule now x)
unfolding with_condition
Tells-reschedule d x now state = rw ((with_condition_lem fabric_device_reschedule now x).0)

other_type : fabric_device_reschedule ≢ fabric_device_failed
unfolding text_beq
other_type = ground (arith, ==_iff fabric_device_reschedule fabric_device_failed)

Tells-failed :
    (d : DeviceResult) (x : DeviceStatus) (now : Time)
    → has_true fabric_device_reschedule x ≡ false
    → Tells d failed (with_condition fabric_device_failed now x)
unfolding with_condition
Tells-failed d x now h state =
    let lem = with_condition_lem fabric_device_failed now x in
    rw (lem.1 fabric_device_reschedule condition_true other_type, h, lem.0)

state_in-settled :
    (d : DeviceResult) (target : DeviceState) (ys : List DeviceStatus)
    → All (Tells d target) ys
    → state_in d ys target ≡ target
unfolding state_in
state_in-settled d target [] h = refl
state_in-settled d target (y ∷ ys) h = elim (Bool-cases (y.device == d.device)) [
  | inl e ↦ rw (e, h.0 target, state_in-settled d target ys h.1)
  | inr e ↦ rw (e, state_in-settled d target ys h.1)
]

state_in-found :
    (d : DeviceResult) (target state : DeviceState) (ys : List DeviceStatus)
    → All (Tells d target) ys
    → any (λ y. y.device == d.device) ys ≡ true
    → state_in d ys state ≡ target
unfolding state_in
state_in-found d target state [] h found = cc
state_in-found d target state (y ∷ ys) h found = elim (Bool-cases (y.device == d.device)) [
  | inl e ↦ rw (e, h.0 state, state_in-settled d target ys h.1)
  | inr e ↦ rw (e, state_in-found d target state ys h.1 (ground arith))
]

-- The loop over the devices patches each of them, and returns.
with_conditions-Patched :
    (env : Environment) (type : Text) (xs : List DeviceStatus) (s : env.State)
    → (ys : List DeviceStatus) × ((with_conditions env type xs s).result ≡ ok ys)
      × Patched type xs ys
unfolding with_conditions
with_conditions-Patched env type [] s = ([], refl, tt)
with_conditions-Patched env type (x ∷ xs) s =
    let (now, t) = env.now s in
    let (ys, e, p) = with_conditions-Patched env type xs t in
    (with_condition type now x ∷ ys, rw e, ((now, refl), p))

Patched-any :
    (type : Text) (name : Text) (xs ys : List DeviceStatus)
    → Patched type xs ys
    → any (λ y. y.device == name) ys ≡ any (λ x. x.device == name) xs
unfolding with_condition
Patched-any type name [] [] p = refl
Patched-any type name [] (y ∷ ys) p = absurd p
Patched-any type name (x ∷ xs) [] p = absurd p
Patched-any type name (x ∷ xs) (y ∷ ys) p = rw (p.0.1, Patched-any type name xs ys p.1)

All-Tells :
    (type : Text) (d : DeviceResult) (target : DeviceState) (ok_before : DeviceStatus → Type 0)
    → ((x : DeviceStatus) (now : Time) → ok_before x → Tells d target (with_condition type now x))
    → (xs ys : List DeviceStatus) → Patched type xs ys
    → All ok_before xs
    → All (Tells d target) ys
All-Tells type d target ok_before f [] [] p h = tt
All-Tells type d target ok_before f [] (y ∷ ys) p h = absurd p
All-Tells type d target ok_before f (x ∷ xs) [] p h = absurd p
All-Tells type d target ok_before f (x ∷ xs) (y ∷ ys) ((now, e), p) h =
    (subst (Tells d target) (sym e) (f x now h.0), All-Tells type d target ok_before f xs ys p h.1)

device_state-found :
    (d : DeviceResult) (target : DeviceState) (ys : List DeviceStatus)
    → All (Tells d target) ys
    → any (λ y. y.device == d.device) ys ≡ true
    → device_state d ys ≡ target
unfolding device_state
device_state-found d target [] h found = cc
device_state-found d target (y ∷ ys) h found = state_in-found d target unset (y ∷ ys) h found

-- The states that the next reconcile derives for an allocated device, of which there is a status,
-- from the statuses that the notifications patch: Reschedule after FabricDeviceReschedule, and
-- Failed after FabricDeviceFailed, unless a status had FabricDeviceReschedule with status True
-- before.
pub device_state-with_conditions :
    (env : Environment) (s : env.State) (d : DeviceResult) (xs : List DeviceStatus)
    → any (λ x. x.device == d.device) xs ≡ true
    → ((ys : List DeviceStatus) × ((with_conditions env fabric_device_reschedule xs s).result
          ≡ ok ys)
        × (device_state d ys ≡ reschedule))
      × (All (λ x. has_true fabric_device_reschedule x ≡ false) xs
          → (ys : List DeviceStatus) × ((with_conditions env fabric_device_failed xs s).result
              ≡ ok ys)
            × (device_state d ys ≡ failed))
device_state-with_conditions env s d xs found =
    let (ys, e, p) = with_conditions-Patched env fabric_device_reschedule xs s in
    let (zs, f, q) = with_conditions-Patched env fabric_device_failed xs s in
    (
      (
        ys,
        e,
        device_state-found d reschedule ys
            (All-Tells fabric_device_reschedule d reschedule (λ x. Unit)
              (λ x now _. Tells-reschedule d x now) xs ys p (All-In xs (λ _ _. tt)))
            (Patched-any fabric_device_reschedule d.device xs ys p ∙ found),
      ),
      λ before. (
        zs,
        f,
        device_state-found d failed zs
            (All-Tells fabric_device_failed d failed
              (λ x. has_true fabric_device_reschedule x ≡ false) (λ x now h. Tells-failed d x now h)
              xs zs q before)
            (Patched-any fabric_device_failed d.device xs zs q ∙ found),
      ),
    )
