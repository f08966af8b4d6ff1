-- ===== src/Reschedule/Notification/Outcome.antt =====
-- What RescheduleNotification sends and returns.
use dynamic_device_scaler.Base.{Text, List, [], ◌∷◌, ◌≡◌, refl, All, ◌⊎◌, length, inl, inr, text_eq}
use dynamic_device_scaler.Types.{
  Duration, reschedule, state_eq, ResourceClaimInfo, ResourceSliceInfo,
}
use dynamic_device_scaler.Kube.{ComposableResource}
use dynamic_device_scaler.Effects.{
  done, Environment, NamesAgree, RangesOver, OnOk, Ensures, Ensures-weaken, pure-Ensures,
}
use dynamic_device_scaler.Reschedule.{ascending, sort_by_time}
use dynamic_device_scaler.Reschedule.States.{AllBecome, AllBecome-refl}
use dynamic_device_scaler.Reschedule.Notification.{notify_sorted, reschedule_notification}
use dynamic_device_scaler.Reschedule.Notification.Served.{Notifies}
use dynamic_device_scaler.Reschedule.Notification.Serving.{notify_loop-Ensures}

module _ (env : Environment) (named : NamesAgree env) (ranges : RangesOver env)
    (slices : List ResourceSliceInfo) (prefix : Text) (threshold : Duration)
    (claims : List ResourceClaimInfo) where
  pub notify_sorted-Ensures :
      (rs : List ComposableResource)
      → Ensures
          (Notifies rs slices prefix (sort_by_time env ascending claims))
          (λ out. (out ≡ claims) ⊎ AllBecome reschedule (sort_by_time env ascending claims) out)
          (notify_sorted env slices prefix threshold rs claims)
  notify_sorted-Ensures [] = pure-Ensures claims (inl refl)
  notify_sorted-Ensures (r ∷ rs) =
      let sorted = sort_by_time env ascending claims in
      Ensures-weaken (λ w h. h) (λ out h. inr h)
        (notify_loop-Ensures env named ranges slices prefix threshold (r ∷ rs) sorted
          (length sorted) 0 sorted
          (record { become = AllBecome-refl reschedule sorted; ahead = λ i le. refl }))

module _ (env : Environment) (named : NamesAgree env) (ranges : RangesOver env)
    (slices : List ResourceSliceInfo) (prefix : Text) (threshold : Duration)
    (claims : List ResourceClaimInfo) (s : env.State) (resources : List ComposableResource)
    (listed : (env.list_resources s).0 ≡ done resources) where
  -- Every write tells the scheduler of a claim that waits for all of its devices, or sets the
  -- last-used time of a resource for it, and there are resources for the claim: as many of each
  -- model as the claim has devices of it, no name twice, all online on the claim's node, listed by
  -- a slice and not being deleted. The claims come back as they were given or in the order of the
  -- sort, and there each as it was or with all of its devices in state Reschedule.
  pub reschedule_notification-Serves :
      All
        (Notifies resources slices prefix (sort_by_time env ascending claims))
        (reschedule_notification env slices prefix threshold claims s).writes
      × OnOk
          (λ out. (out ≡ claims) ⊎ AllBecome reschedule (sort_by_time env ascending claims) out)
          (reschedule_notification env slices prefix threshold claims s).result
  unfolding reschedule_notification
  reschedule_notification-Serves =
      let h = notify_sorted-Ensures env named ranges slices prefix threshold claims resources in
      rw listed (h.sends (env.list_resources s).1, h.returns (env.list_resources s).1)
