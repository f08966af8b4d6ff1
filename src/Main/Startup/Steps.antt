-- ===== src/Main/Startup/Steps.antt =====
-- The steps of main: which calls can fail, and how it may end.
use dynamic_device_scaler.Base.{ℕ, zero, suc, ◌≡◌, none, List, [], ◌∷◌, map, bytes}
use dynamic_device_scaler.Effects.{Error, ok, err}
use dynamic_device_scaler.Controller.{Settings}
use dynamic_device_scaler.Main.{settings_of}
use dynamic_device_scaler.Main.Host.{
  Flags, Parsed, parsed, stops, ManagerOptions, resource_claims, resource_slices, Reconciler, Host,
  Event, logger_set, manager_asked, client_set_asked, controller_asked, healthz_asked, readyz_asked,
  started, Status, exits, status_of,
}
use dynamic_device_scaler.Main.Startup.{level_of, timeout, manager_options, scheme}

-- The steps of main.
pub data Step : Type 0 where
  logging managing connecting reconciling living being_ready starting : Step

-- What comes before what.
abbrev pub order : List Step
order = logging ∷ managing ∷ connecting ∷ reconciling ∷ living ∷ being_ready ∷ starting ∷ []

abbrev pub take : {A : Type 0} → ℕ → List A → List A
take zero xs = []
take (suc n) [] = []
take (suc n) (x ∷ xs) = x ∷ take n xs

module _ (host : Host) where
  -- The calls that can fail, with how many of the steps of `order` have been taken by then.
  pub data Fails : ℕ → Type 0 where
    no_config : (t : host.State) → (host.get_config t).0 ≡ none → Fails 1
    no_manager :
        (config : host.Config) (options : ManagerOptions) (t : host.State)
        → (host.new_manager config (scheme host) options t).0 ≡ none
        → Fails 2
    no_client_set :
        (config : host.Config) (t : host.State) → (host.new_client_set config t).0 ≡ none → Fails 3
    bad_settings : (e : Error) → settings_of host.getenv ≡ err e → Fails 3
    no_controller :
        (mgr : host.Manager) (r : Reconciler host.Client host.ClientSet host.Scheme)
        (t : host.State)
        → (host.complete mgr
            (resource_claims ∷ resource_slices ∷ [])
            (bytes "resourcemonitor")
            r
            t).0
          ≡ none
        → Fails 4
    no_healthz :
        (mgr : host.Manager) (t : host.State)
        → (host.add_healthz_check mgr (bytes "healthz") t).0 ≡ none
        → Fails 5
    no_readyz :
        (mgr : host.Manager) (t : host.State)
        → (host.add_readyz_check mgr (bytes "readyz") t).0 ≡ none
        → Fails 6

  abbrev pub step_of : Event host → Step
  step_of (logger_set level) = logging
  step_of (manager_asked config _ options) = managing
  step_of (client_set_asked config) = connecting
  step_of (controller_asked mgr watches name r) = reconciling
  step_of (healthz_asked mgr path) = living
  step_of (readyz_asked mgr path) = being_ready
  step_of (started mgr) = starting

  -- A start with nothing left out: the reconciler has the client of the manager and the settings
  -- of the environment, and it watches the claims and the slices.
  abbrev pub plan :
      Flags → host.Config → host.Manager → host.ClientSet → Settings → List (Event host)
  plan flags cfg mgr client_set settings =
      logger_set (level_of flags.log_level)
      ∷ manager_asked (host.with_timeout timeout cfg) (scheme host) (manager_options flags)
      ∷ client_set_asked (host.config_of mgr)
      ∷ controller_asked mgr (resource_claims ∷ resource_slices ∷ []) (bytes "resourcemonitor")
          (record {
            client = host.client_of mgr;
            client_set = client_set;
            scheme = host.scheme_of mgr;
            settings = settings;
          })
      ∷ healthz_asked mgr (bytes "healthz")
      ∷ readyz_asked mgr (bytes "readyz")
      ∷ started mgr
      ∷ []

  -- What main may have done when it ends.
  pub data Ends : Parsed → List (Event host) → Status (Unit {0}) → Type 0 where
    not_parsed : (n : ℕ) → Ends (stops n) [] (exits n)
    early :
        (flags : Flags) (n : ℕ) (es : List (Event host))
        → Fails n
        → map step_of es ≡ take n order
        → Ends (parsed flags) es (exits 1)
    served :
        (flags : Flags) (cfg : host.Config) (mgr : host.Manager) (client_set : host.ClientSet)
        (settings : Settings) (t : host.State)
        → settings_of host.getenv ≡ ok settings
        → Ends
            (parsed flags)
            (plan flags cfg mgr client_set settings)
            (status_of (host.start mgr t).0)

  -- A start with nothing left out, which ends as the manager does.
  pub record Serves (flags : Flags) (events : List (Event host)) (status : Status (Unit {0}))
      : Type 0 where
    pub cfg : host.Config
    pub mgr : host.Manager
    pub client_set : host.ClientSet
    pub settings : Settings
    pub accepted : settings_of host.getenv ≡ ok settings
    pub all_steps : events ≡ plan flags cfg mgr client_set settings
    pub stopped_in : host.State
    pub as_manager : status ≡ status_of (host.start mgr stopped_in).0
