-- ===== src/Main/Startup/Plan.antt =====
-- In which order main starts the program, and how it ends.
use dynamic_device_scaler.Base.{
  ◌≡◌, refl, subst, Text, ◌||◌, Option, none, some, List, [], ◌∷◌, ◌++◌, append_assoc, bytes,
  Option-cases, inl, inr, ltb_ℤ, pos, ℤ,
}
use dynamic_device_scaler.Effects.{Error, Result, ok, err, panic, Returns, Any}
use dynamic_device_scaler.Effects.Results.{>>=-Returns, if-Returns}
use dynamic_device_scaler.Collect.Nodes.{atoi}
use dynamic_device_scaler.Controller.{Settings}
use dynamic_device_scaler.Main.{checked, env_value, get_env_as_int, settings_of}
use dynamic_device_scaler.Main.Host.{
  Flags, Parsed, parsed, stops, resource_claims, resource_slices, Reconciler, Host, Event,
  logger_set, manager_asked, client_set_asked, controller_asked, healthz_asked, readyz_asked,
  started, exits, Ran, Process, ◌>>=◌, ◌>>◌, status_of_parsed, go_on, ask, check,
}
use dynamic_device_scaler.Main.Startup.{
  default_flags, level_of, timeout, manager_options, scheme, parse_flags, setup_with_manager, main,
}
use dynamic_device_scaler.Main.Startup.Steps.{
  take, no_config, no_manager, no_client_set, bad_settings, no_controller, no_healthz, no_readyz,
  plan, Ends, not_parsed, early, served,
}

abbrev flags_in : Flags → Parsed → Flags
flags_in default (parsed flags) = flags
flags_in default (stops n) = default

settings_of-Returns : (getenv : Text → Text) → Returns Any (settings_of getenv)
unfolding settings_of get_env_as_int
settings_of-Returns getenv =
    >>=-Returns Any Any (env_value (pos 60) (getenv (bytes "SCAN_INTERVAL"))) _
      (env_value-Returns (pos 60) _)
      λ a _.
        >>=-Returns Any Any (env_value (pos 600) (getenv (bytes "DEVICE_NO_REMOVAL_DURATION"))) _
          (env_value-Returns (pos 600) _)
          λ b _.
            >>=-Returns Any Any
              (env_value (pos 60) (getenv (bytes "DEVICE_NO_ALLOCATION_DURATION"))) _
              (env_value-Returns (pos 60) _) λ c _. tt
  where
    checked-Returns : (o : Option ℤ) → Returns Any (checked o)
    checked-Returns none = tt
    checked-Returns (some value) =
        if-Returns Any (ltb_ℤ value (pos 0) || ltb_ℤ (pos 86400) value) _ _ tt tt

    env_value-Returns : (d : ℤ) (text : Text) → Returns Any (env_value d text)
    env_value-Returns d [] = tt
    env_value-Returns d (b ∷ bs) = checked-Returns (atoi (b ∷ bs))

module _ (host : Host) where
  -- How main ends after these events.
  abbrev Ended : Flags → List (Event host) → Ran host (Unit {0}) → Type 0
  Ended flags before r = Ends host (parsed flags) (before ++ r.events) r.status

  -- A call, and what is done with its answer.
  ask-Ended :
      {A : Type 0} (flags : Flags) (before es : List (Event host))
      (call : host.State → Option A × host.State) (f : A → Process host (Unit {0})) (s : host.State)
      → ((call s).0 ≡ none → Ends host (parsed flags) (before ++ es) (exits 1))
      → ((a : A) (t : host.State) → Ended flags (before ++ es) (f a t))
      → Ended flags before ((ask es call >>= f) s)
  ask-Ended flags before es call f s fails goes = elim (Option-cases (call s).0) [
    | inl e ↦ rw e (fails e)
    | inr (a, e) ↦
        let r = f a (call s).1 in
        rw e (
          subst (λ (es : List (Event host)). Ends host (parsed flags) es r.status)
            (append_assoc before es r.events) (goes a (call s).1))
  ]

  settings-Ended :
      (flags : Flags) (before : List (Event host)) (r : Result Settings)
      (f : Settings → Process host (Unit {0})) (s : host.State)
      → Returns Any r
      → ((e : Error) → r ≡ err e → Ends host (parsed flags) (before ++ []) (exits 1))
      → ((settings : Settings) → r ≡ ok settings → Ended flags before (f settings s))
      → Ended flags before ((check r >>= f) s)
  settings-Ended flags before (ok settings) f s q fails goes = goes settings refl
  settings-Ended flags before (err e) f s q fails goes = fails e refl
  settings-Ended flags before (panic m) f s q fails goes = absurd q

  parse-Ended :
      (f : Flags → Process host (Unit {0})) (s : host.State)
      → ((flags : Flags) (t : host.State) → Ended flags [] (f flags t))
      → let r = (parse_flags host >>= f) s in
        Ends host (host.parse_flags default_flags s).0 r.events r.status
  parse-Ended f s goes = answered (host.parse_flags default_flags s)
    where
      answered :
          (p : Parsed × host.State)
          → let r = go_on (status_of_parsed p.0) p.1 [] f in Ends host p.0 r.events r.status
      answered (stops n, t) = not_parsed n
      answered (parsed flags, t) = goes flags t

  -- From the controller on.
  rest-Ended :
      (flags : Flags) (cfg : host.Config) (mgr : host.Manager) (client_set : host.ClientSet)
      (settings : Settings) (s : host.State)
      → settings_of host.getenv ≡ ok settings
      → Ended flags (take 3 (plan host flags cfg mgr client_set settings)) (
          (setup_with_manager host mgr (record {
            client = host.client_of mgr;
            client_set = client_set;
            scheme = host.scheme_of mgr;
            settings = settings;
          })
              >> (ask
                    (healthz_asked mgr (bytes "healthz") ∷ [])
                    (host.add_healthz_check mgr (bytes "healthz"))
                  >> (ask
                        (readyz_asked mgr (bytes "readyz") ∷ [])
                        (host.add_readyz_check mgr (bytes "readyz"))
                      >> ask (started mgr ∷ []) (host.start mgr))))
            s)
  rest-Ended flags cfg mgr client_set settings s accepted =
      let all = plan host flags cfg mgr client_set settings in
      let r : Reconciler host.Client host.ClientSet host.Scheme = record {
        client = host.client_of mgr;
        client_set = client_set;
        scheme = host.scheme_of mgr;
        settings = settings;
      } in
      let watches = resource_claims ∷ resource_slices ∷ [] in
      ask-Ended flags (take 3 all) (controller_asked mgr watches (bytes "resourcemonitor") r ∷ [])
        (host.complete mgr watches (bytes "resourcemonitor") r) _ s
        (λ e. early flags 4 (take 4 all) (no_controller mgr r s e) refl)
        λ _ s5.
          ask-Ended flags (take 4 all) (healthz_asked mgr (bytes "healthz") ∷ [])
            (host.add_healthz_check mgr (bytes "healthz")) _ s5
            (λ e. early flags 5 (take 5 all) (no_healthz mgr s5 e) refl)
            λ _ s6.
              ask-Ended flags (take 5 all) (readyz_asked mgr (bytes "readyz") ∷ [])
                (host.add_readyz_check mgr (bytes "readyz")) _ s6
                (λ e. early flags 6 (take 6 all) (no_readyz mgr s6 e) refl)
                λ _ s7. served flags cfg mgr client_set settings s7 accepted

  -- Where the flags do not parse, main ends as flag.Parse says. Otherwise it takes its steps in
  -- order and ends with status 1 at the first that fails, before the start of the manager; or it
  -- starts the manager, after a start with nothing left out and with accepted settings, and ends as
  -- the manager does.
  pub main-Ends :
      (s : host.State)
      → let r = main host s in Ends host (host.parse_flags default_flags s).0 r.events r.status
  unfolding main
  main-Ends s = parse-Ended _ s λ flags s1.
      let es1 = logger_set (level_of flags.log_level) ∷ [] in
      ask-Ended flags es1 [] host.get_config _ s1 (λ e. early flags 1 es1 (no_config s1 e) refl)
        λ cfg s2.
          let config = host.with_timeout timeout cfg in
          let options = manager_options flags in
          let es2 = manager_asked config (scheme host) options ∷ [] in
          ask-Ended flags es1 es2 (host.new_manager config (scheme host) options) _ s2
            (λ e. early flags 2 (es1 ++ es2) (no_manager config options s2 e) refl)
            λ mgr s3.
              let es3 = client_set_asked (host.config_of mgr) ∷ [] in
              let before3 = es1 ++ es2 ++ es3 in
              ask-Ended flags (es1 ++ es2) es3 (host.new_client_set (host.config_of mgr)) _ s3
                (λ e. early flags 3 before3 (no_client_set (host.config_of mgr) s3 e) refl)
                λ client_set s4.
                  settings-Ended flags before3 (settings_of host.getenv) _ s4
                    (settings_of-Returns host.getenv)
                    (λ x e. early flags 3 before3 (bad_settings x e) refl)
                    λ settings accepted. rest-Ended flags cfg mgr client_set settings s4 accepted
