-- ===== src/Reschedule/Runs.antt =====
-- The shared steps of the notifications as sequences of calls that never panic.
use dynamic_device_scaler.Base.{Text, Option, none, some}
use dynamic_device_scaler.Types.{DeviceState, ResourceClaimInfo}
use dynamic_device_scaler.Effects.{Environment, Program, Runs, Any, pure-Runs, >>=-Runs}
use dynamic_device_scaler.Patch.Runs.{patch_resource_claim_device_conditions-Runs}
use dynamic_device_scaler.Reschedule.{with_state, set_devices_state, at_claim}

module _ (env : Environment) where
  pub set_devices_state-Runs :
      (rc : ResourceClaimInfo) (target : DeviceState) (type : Text)
      → Runs env Any (set_devices_state env rc target type)
  unfolding set_devices_state
  set_devices_state-Runs rc target type =
      >>=-Runs {Q = Any} _ _
        (patch_resource_claim_device_conditions-Runs env rc.name rc.namespace type)
        λ _ _. pure-Runs (with_state target rc) tt

  pub at_claim-Runs :
      {A : Type 0} (o : Option ResourceClaimInfo) (stop : Program env A)
      (round : ResourceClaimInfo → Program env A)
      → Runs env Any stop
      → ((rc : ResourceClaimInfo) → Runs env Any (round rc))
      → Runs env Any (at_claim o stop round)
  at_claim-Runs none stop round h f = h
  at_claim-Runs (some rc) stop round h f = f rc
