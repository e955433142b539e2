-- ===== src/Manager/Tests.antt =====
-- A start of cmd/main.go in which every step succeeds, and the theorem at it.
use heliop.Base.{ℕ, suc, refl, String, List, [], ◌∷◌, true, ◌==◌, if◌then◌else◌}
use heliop.Base.Action.{Action, ◌>>=◌}
use heliop.Base.Result.{ok}
use heliop.Controllers.Sample.{library, cluster}
use heliop.Manager.{
  Flags, Parsed, parsed_flags, help_wanted, bad_flags, Runtime, init, main, startup, run_parsed,
  run_main,
}
use heliop.Manager.Start.{IsRegistered, IsFinished, main-IsStarted}
use heliop.Secrets.Tests.{example}

-- The state counts the steps.
abbrev step : Action ℕ (Unit {0})
step n = (ok tt, suc n)

abbrev counted_config : Action ℕ (Unit {0})
counted_config n = (ok tt, suc n)

-- Each argument but a request for help is an error.
abbrev parse_arguments : Flags → List String → Parsed
parse_arguments flags [] = parsed_flags flags
parse_arguments flags (argument ∷ _) = if argument == "-h" then help_wanted else bad_flags

abbrev counting : Runtime example cluster
counting = record {
  State = ℕ;
  parse = parse_arguments;
  add_core_types = step;
  add_to_scheme = λ version types. step;
  Config = Unit {0};
  get_config_or_die = counted_config;
  new_manager = λ config options. step;
  complete = λ setup reconciler. step;
  add_healthz_check = λ name. step;
  add_readyz_check = λ name. step;
  start = step;
}

main-IsStarted_example :
    (registered : ℕ) × IsRegistered example cluster (library true) counting 0 registered
    × IsFinished example cluster (library true) counting [] registered 9
unfolding main init startup run_parsed run_main ◌>>=◌
main-IsStarted_example = main-IsStarted example cluster (library true) counting [] 0 refl
