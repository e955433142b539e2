-- ===== src/Manager.antt =====
-- cmd/main.go: the flags, the options of the manager, and the steps of the start, with what
-- api/v1alpha1/groupversion_info.go registers. The calls of controller-runtime and of Go's flag package
-- are a parameter; logging and the flags of the logger are left out.
pub mod Start
mod Tests
use heliop.Base.{ℕ, String, Bool, true, false, List, [], ◌∷◌, ◌++◌, ◌==◌, if◌then◌else◌}
use heliop.Base.Action.{Action, ◌>>=◌, ◌>>◌}
use heliop.Base.Result.{Result, ok, err, panic}
use heliop.Cluster.{ClusterClient}
use heliop.OauthClients.{Request}
use heliop.Secrets.{Crypto}
use heliop.Controllers.{Libraries, ReconcileResult, World, reconcile, reconcile_client}
use heliop.Controllers.Watches.{Setup, authelia_setup, client_setup}

-- A directory, and the names of the certificate and of the key in it.
pub record Certificate : Type 0 where
  pub path : String
  pub name : String
  pub key : String

pub record Flags : Type 0 where
  pub metrics_addr : String
  pub probe_addr : String
  pub enable_leader_election : Bool
  pub secure_metrics : Bool
  pub webhook_cert : Certificate
  pub metrics_cert : Certificate
  pub enable_http2 : Bool

abbrev default_cert : Certificate
default_cert = record { path = ""; name = "tls.crt"; key = "tls.key" }

-- The flags that are not given.
abbrev pub default_flags : Flags
default_flags = record {
  metrics_addr = "0";
  probe_addr = ":8081";
  enable_leader_election = false;
  secure_metrics = true;
  webhook_cert = default_cert;
  metrics_cert = default_cert;
  enable_http2 = false;
}

-- The part of a `tls.Config` that the program writes.
pub record TlsConfig : Type 0 where
  pub next_protos : List String

abbrev pub TlsOption : Type 0
TlsOption = TlsConfig → TlsConfig

pub disable_http2 : TlsOption
disable_http2 c = record c { next_protos = "http/1.1" ∷ [] }

pub tls_opts : Flags → List TlsOption
unfolding disable_http2
tls_opts flags = if flags.enable_http2 then [] else disable_http2 ∷ []

-- `if len(path) > 0`: the zero value of the options has no certificate.
pub given_cert : Certificate → Certificate
given_cert cert = if cert.path == "" then record { path = ""; name = ""; key = "" } else cert

pub record WebhookOptions : Type 0 where
  pub tls : List TlsOption
  pub cert : Certificate

pub record MetricsOptions : Type 0 where
  pub bind_address : String
  pub secure_serving : Bool
  pub tls : List TlsOption
  -- `WithAuthenticationAndAuthorization`
  pub filtered : Bool
  pub cert : Certificate

pub record ManagerOptions : Type 0 where
  pub metrics : MetricsOptions
  pub webhook : WebhookOptions
  pub probe_addr : String
  pub leader_election : Bool
  pub leader_election_id : String

pub webhook_options : Flags → WebhookOptions
unfolding tls_opts given_cert
webhook_options flags = record { tls = tls_opts flags; cert = given_cert flags.webhook_cert }

pub metrics_options : Flags → MetricsOptions
unfolding tls_opts given_cert
metrics_options flags = record {
  bind_address = flags.metrics_addr;
  secure_serving = flags.secure_metrics;
  tls = tls_opts flags;
  filtered = if flags.secure_metrics then true else false;
  cert = given_cert flags.metrics_cert;
}

pub manager_options : Flags → ManagerOptions
unfolding webhook_options metrics_options
manager_options flags = record {
  metrics = metrics_options flags;
  webhook = webhook_options flags;
  probe_addr = flags.probe_addr;
  leader_election = flags.enable_leader_election;
  leader_election_id = "4d05d2cf.snosr.se";
}

-- What `flag.Parse` does with the arguments: it sets the flags, prints the usage, or reports an error.
pub data Parsed : Type 0 where
  parsed_flags : Flags → Parsed
  help_wanted : Parsed
  bad_flags : Parsed

-- `schema.GroupVersion`
pub record GroupVersion : Type 0 where
  pub group : String
  pub version : String

abbrev pub scheme_group_version : GroupVersion
scheme_group_version = record { group = "authelia.snosr.se"; version = "v1alpha1" }

-- The types that the `init` functions of api/v1alpha1 register, one function each.
abbrev authelia_types : List String
authelia_types = "Authelia" ∷ "AutheliaList" ∷ []

abbrev client_types : List String
client_types = "AutheliaOAuthClient" ∷ "AutheliaOAuthClientList" ∷ []

abbrev pub registered_types : List String
registered_types = authelia_types ++ client_types

module _ (c : Crypto) (cc : ClusterClient c.Source) where
  abbrev pub Reconciler : Type 0
  Reconciler = Request → Action (World c cc) ReconcileResult

  -- The calls of libraries that the start makes, over an unknown state.
  pub record Runtime : Type 1 where
    pub State : Type 0
    -- `flag.Parse`, from the defaults of the flags and the arguments
    pub parse : Flags → List String → Parsed
    -- `AddToScheme` of Kubernetes' own types, and of a `scheme.Builder`
    pub add_core_types : Action State (Unit {0})
    pub add_to_scheme : GroupVersion → List String → Action State (Unit {0})
    -- `rest.Config`, and `GetConfigOrDie`, which exits with status 1 on an error
    pub Config : Type 0
    pub get_config_or_die : Action State Config
    pub new_manager : Config → ManagerOptions → Action State (Unit {0})
    -- The builder of a controller, up to `Complete`
    pub complete : Setup cc.State → Reconciler → Action State (Unit {0})
    pub add_healthz_check : String → Action State (Unit {0})
    pub add_readyz_check : String → Action State (Unit {0})
    pub start : Action State (Unit {0})

-- `utilruntime.Must`: an error becomes a panic.
abbrev pub must_result : Result (Unit {0}) → Result (Unit {0})
must_result (ok u) = ok u
must_result (err _) = panic
must_result panic = panic

abbrev pub must : {W : Type 0} → Action W (Unit {0}) → Action W (Unit {0})
must m w = let (r, w') = m w in (must_result r, w')

-- `os.Exit(1)` after an error; Go's own status after a panic.
abbrev pub exit_status : Result (Unit {0}) → ℕ
exit_status (ok _) = 0
exit_status (err _) = 1
exit_status panic = 2

abbrev exited : {W : Type 0} → Result (Unit {0}) × W → ℕ × W
exited (r, w) = (exit_status r, w)

module _ (c : Crypto) (cc : ClusterClient c.Source) (lib : Libraries) (rt : Runtime c cc) where
  -- `autheliav1alpha1.AddToScheme`
  abbrev pub add_types : Action rt.State (Unit {0})
  add_types = rt.add_to_scheme scheme_group_version registered_types

  -- `init`, which runs before `main`
  pub init : Action rt.State (Unit {0})
  init = must rt.add_core_types >> must add_types

  -- The SetupWithManager methods of both reconcilers
  abbrev pub setup_authelia : Action rt.State (Unit {0})
  setup_authelia = rt.complete (authelia_setup c cc) (reconcile c cc lib)

  abbrev pub setup_client : Action rt.State (Unit {0})
  setup_client = rt.complete (client_setup c cc) (reconcile_client c cc)

  pub startup : Flags → Action rt.State (Unit {0})
  unfolding manager_options
  startup flags = do
    config ← rt.get_config_or_die
    rt.new_manager config (manager_options flags)
    setup_authelia
    setup_client
    rt.add_healthz_check "healthz"
    rt.add_readyz_check "readyz"
    rt.start

  -- `main` after `flag.Parse`, which exits with status 0 after the usage and with 2 after an error.
  pub run_parsed : Parsed → rt.State → ℕ × rt.State
  unfolding startup
  run_parsed (parsed_flags flags) st = exited (startup flags st)
  run_parsed help_wanted st = (0, st)
  run_parsed bad_flags st = (2, st)

  -- `main` after `init`
  pub run_main : List String → Result (Unit {0}) → rt.State → ℕ × rt.State
  unfolding run_parsed
  run_main args (ok _) st = run_parsed (rt.parse default_flags args) st
  run_main args (err e) st = (exit_status (err e), st)
  run_main args panic st = (exit_status panic, st)

  -- The exit status of the process, and the state that it leaves.
  pub main : List String → rt.State → ℕ × rt.State
  unfolding init run_main
  main args st = let (r, st') = init st in run_main args r st'
