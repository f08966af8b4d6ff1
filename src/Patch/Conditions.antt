-- ===== src/Patch/Conditions.antt =====
-- What a patch of the device conditions does to the conditions of one device.
use dynamic_device_scaler.Base.{
  Text, true, List, [], ◌∷◌, ◌≡◌, refl, sym, ◌≢◌, ==_iff, ==_refl, text_eq, arith,
}
use dynamic_device_scaler.Types.{Time}
use dynamic_device_scaler.Kube.{Condition, DeviceStatus}
use dynamic_device_scaler.Conditions.{condition_true, has_condition_with_status}
use dynamic_device_scaler.Patch.{put_condition, new_condition, with_condition, conditions_of}

put_condition-has :
    (new : Condition) (cs : List Condition)
    → has_condition_with_status (put_condition new cs) new.type new.status ≡ true
unfolding put_condition has_condition_with_status
put_condition-has new [] = rw (==_refl new.type, ==_refl new.status)
put_condition-has new (c ∷ cs) =
    ground (arith, put_condition-has new cs, ==_refl new.type, ==_refl new.status)

put_condition-other :
    (new : Condition) (cs : List Condition) (type status : Text)
    → new.type ≢ type
    → has_condition_with_status (put_condition new cs) type status
      ≡ has_condition_with_status cs type status
unfolding put_condition has_condition_with_status
put_condition-other new [] type status n = ground (arith, ==_iff new.type type)
put_condition-other new (c ∷ cs) type status n = ground (
  arith,
  put_condition-other new cs type status n,
  ==_iff new.type type,
  ==_iff c.type type,
  ==_iff c.type new.type,
)

put_condition-twice :
    (new again : Condition) (cs : List Condition)
    → again.type ≡ new.type
    → again.status ≡ new.status
    → put_condition again (put_condition new cs) ≡ put_condition new cs
unfolding put_condition
put_condition-twice new again [] p q =
    ground (arith, ==_iff new.type again.type, ==_iff new.status again.status)
put_condition-twice new again (c ∷ cs) p q = ground (
  arith,
  put_condition-twice new again cs p q,
  ==_iff new.type again.type,
  ==_iff new.status again.status,
  ==_iff c.type again.type,
  ==_iff c.type new.type,
  ==_iff c.status again.status,
  ==_iff c.status new.status,
)

-- A patched device has the condition with status True. The conditions of every other type read as
-- before, and a second patch with the same condition, at whatever time, changes nothing.
pub with_condition_lem :
    (type : Text) (now : Time) (device : DeviceStatus)
    → (has_condition_with_status
          (conditions_of (with_condition type now device))
          type
          condition_true
        ≡ true)
      × ((other status : Text)
          → other ≢ type
          → has_condition_with_status (conditions_of (with_condition type now device)) other status
            ≡ has_condition_with_status (conditions_of device) other status)
      × ((later : Time)
          → with_condition type later (with_condition type now device)
            ≡ with_condition type now device)
unfolding with_condition
with_condition_lem type now device = (
  put_condition-has (new_condition type now device.device) (conditions_of device),
  λ other status n.
      put_condition-other (new_condition type now device.device) (conditions_of device) other status
        (λ e. n (sym e)),
  λ later. rw (
      put_condition-twice (new_condition type now device.device)
        (new_condition type later device.device) (conditions_of device) refl refl),
)
