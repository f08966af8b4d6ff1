-- ===== src/Main/Host.antt =====
-- What cmd/main.go calls and does not implement: the flags, the environment of the process, the
-- kubeconfig and the controller manager; and the steps of a process that may end early.
use dynamic_device_scaler.Base.{ℕ, Text, Bool, Option, none, some, List, [], ◌++◌}
use dynamic_device_scaler.Types.{Duration}
use dynamic_device_scaler.Effects.{Result, ok, err, panic}
use dynamic_device_scaler.Controller.{Settings}

-- The values of the flags that main defines.
pub record Flags : Type 0 where
  pub health_probe_bind_address : Text
  pub leader_elect : Bool
  pub log_level : Text

-- What flag.Parse does: it sets the flags, or it ends the process.
pub data Parsed : Type 0 where
  parsed : Flags → Parsed
  stops : ℕ → Parsed

-- The levels of zapcore that main sets.
pub data Level : Type 0 where
  debug_level info_level error_level : Level

-- The fields of ctrl.Options that main sets, the scheme aside.
pub record ManagerOptions : Type 0 where
  pub health_probe_bind_address : Text
  pub leader_election : Bool
  pub leader_election_id : Text

-- The kinds of object whose events start a reconcile.
pub data Watched : Type 0 where
  resource_claims resource_slices : Watched

-- ResourceMonitorReconciler
pub record Reconciler (Client ClientSet Scheme : Type 0) : Type 0 where
  pub client : Client
  pub client_set : ClientSet
  pub scheme : Scheme
  pub settings : Settings

-- The libraries and the machine. A call that can fail answers nothing where it returns an error.
pub record Host : Type 1 where
  pub State : Type 0
  pub Config : Type 0
  pub Scheme : Type 0
  pub Manager : Type 0
  pub Client : Type 0
  pub ClientSet : Type 0
  pub new_scheme : Scheme
  -- The two functions AddToScheme, whose errors are dropped.
  pub add_client_go : Scheme → Scheme
  pub add_cdi_operator : Scheme → Scheme
  -- flag.Parse with the defaults
  pub parse_flags : Flags → State → Parsed × State
  -- os.Getenv: a variable that is not set has the value "".
  pub getenv : Text → Text
  -- ctrl.GetConfigOrDie: it ends the process with status 1 where it has no configuration.
  pub get_config : State → Option Config × State
  pub with_timeout : Duration → Config → Config
  pub new_manager : Config → Scheme → ManagerOptions → State → Option Manager × State
  pub config_of : Manager → Config
  pub client_of : Manager → Client
  pub scheme_of : Manager → Scheme
  pub new_client_set : Config → State → Option ClientSet × State
  -- The builder of a controller, with the kinds it watches and its name, up to Complete.
  pub complete :
      Manager
      → List Watched
      → Text
      → Reconciler Client ClientSet Scheme
      → State
      → Option (Unit {0}) × State
  pub add_healthz_check : Manager → Text → State → Option (Unit {0}) × State
  pub add_readyz_check : Manager → Text → State → Option (Unit {0}) × State
  -- It returns when the manager stops.
  pub start : Manager → State → Option (Unit {0}) × State

-- What main asks of the libraries, in the order in which it does.
pub data Event (host : Host) : Type 0 where
  logger_set : Level → Event host
  manager_asked : host.Config → host.Scheme → ManagerOptions → Event host
  client_set_asked : host.Config → Event host
  controller_asked :
      host.Manager
      → List Watched
      → Text
      → Reconciler host.Client host.ClientSet host.Scheme
      → Event host
  healthz_asked : host.Manager → Text → Event host
  readyz_asked : host.Manager → Text → Event host
  started : host.Manager → Event host

pub data Status (A : Type 0) : Type 0 where
  goes_on : A → Status A
  exits : ℕ → Status A

pub record Ran (host : Host) (A : Type 0) : Type 0 where
  pub status : Status A
  pub state : host.State
  pub events : List (Event host)

abbrev pub Process : Host → Type 0 → Type 0
Process host A = host.State → Ran host A

module _ {host : Host} {A B : Type 0} where
  abbrev pub go_on : Status A → host.State → List (Event host) → (A → Process host B) → Ran host B
  go_on (goes_on a) s es f =
      let r = f a s in record { status = r.status; state = r.state; events = es ++ r.events }
  go_on (exits n) s es f = record { status = exits n; state = s; events = es }

  infixl 5 ◌>>=◌ ◌>>◌
  abbrev pub ◌>>=◌ : Process host A → (A → Process host B) → Process host B
  m >>= f = λ s. let r = m s in go_on r.status r.state r.events f

  abbrev pub ◌>>◌ : Process host A → Process host B → Process host B
  m >> n = m >>= λ _. n

abbrev pub status_of : {A : Type 0} → Option A → Status A
status_of none = exits 1
status_of (some a) = goes_on a

abbrev pub status_of_result : {A : Type 0} → Result A → Status A
status_of_result (ok a) = goes_on a
status_of_result (err e) = exits 1
status_of_result (panic m) = exits 2

abbrev pub status_of_parsed : Parsed → Status Flags
status_of_parsed (parsed flags) = goes_on flags
status_of_parsed (stops n) = exits n

module _ {host : Host} {A : Type 0} where
  -- A call with `if err != nil { os.Exit(1) }` after it.
  abbrev pub ask : List (Event host) → (host.State → Option A × host.State) → Process host A
  ask es call s =
      let (answer, t) = call s in record { status = status_of answer; state = t; events = es }

  -- A value computed without the libraries, with `if err != nil { os.Exit(1) }` after it.
  abbrev pub check : Result A → Process host A
  check r s = record { status = status_of_result r; state = s; events = [] }
