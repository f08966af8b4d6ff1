-- ===== src/Tests/Starting.antt =====
-- main on a machine where everything works, and on one without a controller manager.
use dynamic_device_scaler.Base.{◌≡◌, refl, none, some, [], ◌∷◌, bytes, text_beq}
use dynamic_device_scaler.Main.Host.{
  Flags, parsed, debug_level, Host, logger_set, manager_asked, exits,
}
use dynamic_device_scaler.Main.Startup.{default_flags, level_of, manager_options, main}
use dynamic_device_scaler.Main.Startup.Steps.{Ends}
use dynamic_device_scaler.Main.Startup.Plan.{main-Ends}

abbrev given : Flags
given = record default_flags { log_level = bytes "debug" }

-- Everything but the state of the machine is of one kind.
abbrev working : Host
working = record {
  State = Unit {0};
  Config = Unit {0};
  Scheme = Unit {0};
  Manager = Unit {0};
  Client = Unit {0};
  ClientSet = Unit {0};
  new_scheme = tt;
  add_client_go = λ s. s;
  add_cdi_operator = λ s. s;
  parse_flags = λ defaults s. (parsed given, s);
  getenv = λ name. [];
  get_config = λ s. (some tt, s);
  with_timeout = λ d c. c;
  new_manager = λ c scheme options s. (some tt, s);
  config_of = λ m. tt;
  client_of = λ m. tt;
  scheme_of = λ m. tt;
  new_client_set = λ c s. (some tt, s);
  complete = λ m watches name r s. (some tt, s);
  add_healthz_check = λ m path s. (some tt, s);
  add_readyz_check = λ m path s. (some tt, s);
  start = λ m s. (some tt, s);
}

abbrev without_manager : Host
without_manager = record working { new_manager = λ c scheme options s. (none, s) }

without_manager_events :
    (main without_manager tt).events
    ≡ logger_set debug_level ∷ manager_asked tt tt (manager_options given) ∷ []
unfolding main level_of text_beq
without_manager_events = refl

without_manager_status : (main without_manager tt).status ≡ exits 1
unfolding main
without_manager_status = refl

main-Ends_example :
    let r = main without_manager tt in Ends without_manager (parsed given) r.events r.status
main-Ends_example = main-Ends without_manager tt
