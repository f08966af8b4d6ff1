-- ===== src/Main/Startup.antt =====
-- cmd/main.go: what main does from its flags to the start of the manager; and SetupWithManager of
-- internal/controller/resourcemonitor_controller.go.
pub mod Steps
pub mod Plan
use dynamic_device_scaler.Base.{
  pos, ◌*◌, Text, false, List, [], ◌∷◌, ◌==◌, text_eq, bytes, if◌then◌else◌,
}
use dynamic_device_scaler.Types.{Duration}
use dynamic_device_scaler.Main.{settings_of}
use dynamic_device_scaler.Main.Host.{
  Flags, Parsed, Level, debug_level, info_level, error_level, ManagerOptions, resource_claims,
  resource_slices, Reconciler, Host, Event, logger_set, manager_asked, client_set_asked,
  controller_asked, healthz_asked, readyz_asked, started, goes_on, Process, ◌>>=◌, ◌>>◌,
  status_of_parsed, ask, check,
}

abbrev pub default_flags : Flags
default_flags = record {
  health_probe_bind_address = bytes ":8081";
  leader_elect = false;
  log_level = bytes "info";
}

-- The switch over the flag log-level.
unfoldable pub level_of : Text → Level
level_of name =
    if name == bytes "debug"
    then debug_level
    else if name == bytes "info"
    then info_level
    else if name == bytes "error"
    then error_level
    else info_level

abbrev pub timeout : Duration
timeout = pos (30 * 1000000000)

abbrev pub manager_options : Flags → ManagerOptions
manager_options flags = record {
  health_probe_bind_address = flags.health_probe_bind_address;
  leader_election = flags.leader_elect;
  leader_election_id = bytes "2313b367.co.hdi";
}

module _ (host : Host) where
  -- `init`
  abbrev pub scheme : host.Scheme
  scheme = host.add_cdi_operator (host.add_client_go host.new_scheme)

  abbrev pub parse_flags : Process host Flags
  parse_flags s =
      let (answer, t) = host.parse_flags default_flags s in
      record { status = status_of_parsed answer; state = t; events = [] }

  abbrev pub set_logger : Level → Process host (Unit {0})
  set_logger level s = record { status = goes_on tt; state = s; events = logger_set level ∷ [] }

  -- `SetupWithManager`
  abbrev pub setup_with_manager :
      host.Manager → Reconciler host.Client host.ClientSet host.Scheme → Process host (Unit {0})
  setup_with_manager mgr r =
      let watches = resource_claims ∷ resource_slices ∷ [] in
      ask (controller_asked mgr watches (bytes "resourcemonitor") r ∷ [])
        (host.complete mgr watches (bytes "resourcemonitor") r)

  unfoldable pub main : Process host (Unit {0})
  unfolding settings_of
  main = do
    flags ← parse_flags
    set_logger (level_of flags.log_level)
    cfg ← ask [] host.get_config
    let config = host.with_timeout timeout cfg
    let options = manager_options flags
    mgr ← ask (manager_asked config scheme options ∷ []) (host.new_manager config scheme options)
    client_set ←
        ask (client_set_asked (host.config_of mgr) ∷ []) (host.new_client_set (host.config_of mgr))
    settings ← check (settings_of host.getenv)
    setup_with_manager mgr (record {
      client = host.client_of mgr;
      client_set = client_set;
      scheme = host.scheme_of mgr;
      settings = settings;
    })
    ask (healthz_asked mgr (bytes "healthz") ∷ []) (host.add_healthz_check mgr (bytes "healthz"))
    ask (readyz_asked mgr (bytes "readyz") ∷ []) (host.add_readyz_check mgr (bytes "readyz"))
    ask (started mgr ∷ []) (host.start mgr)
