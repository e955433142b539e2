-- ===== src/Controllers/Tests.antt =====
-- Runs of both controllers on a cluster in memory, and the theorems at them.
use heliop.Base.{ℕ, inr, String, ap, ◌∙◌, true, false, some, [], ◌∷◌, ◌≡◌, refl}
use heliop.Base.Action.{EndsIn}
use heliop.Base.Result.{err, marshalling_config}
use heliop.Kubernetes.{ConfigMap, Secret}
use heliop.Mutations.{blank_config_map}
use heliop.Controllers.Success.{kinds_differ}
use heliop.Cluster.{Kind, config_map, ClusterClient, secret, authelia, oauth_client}
use heliop.Render.{render_config, layer}
use heliop.Ingress.Tests.{parse_example}
use heliop.OauthClients.Tests.{client}
use heliop.Resources.Tests.{main}
use heliop.Secrets.{bytes_at, map_of}
use heliop.Secrets.Tests.{example, example-IsSound, example-IsReliable}
use heliop.Controllers.{done, reconcile, reconcile_client}
use heliop.Controllers.ClientReconciled.{ClientReconciled, reconcile_client-Reconciled}
use heliop.Controllers.Disturbed.{disturbed, Disturbing, disturbed-IsShared}
use heliop.Controllers.Example.{Objects, put-Puts, memory-IsCluster, memory-IsCurrent, memory-IsUp}
use heliop.Controllers.Liveness.{reconcile-EndsIn}
use heliop.Controllers.Reconciled.{Reconciled, reconcile-Reconciled}
use heliop.Controllers.Refinement.{Outcome, reconcile-Outcome, reconcile_client-Outcome}
use heliop.Controllers.Refused.{rendering, reconcile-Refusal}
use heliop.Controllers.Runs.{
  for_authelia_controller, for_client_controller, run, run_keeps_core, Untouched, run-Untouched,
}
use heliop.Writes.{Joint, AutheliaChange, ClientChange}
use heliop.Controllers.Sample.{
  printed, waiting, no_clients, no_rules, dark, reconcile_run, client_run, library, half_made,
  start, listed, cluster, first, main_request, client_request,
}

-- Someone else writes a ConfigMap after each update.
abbrev others_map : ConfigMap
others_map = blank_config_map "auth" "of-a-user"

abbrev busy : ClusterClient ℕ
busy = disturbed ℕ listed others_map

abbrev Others : Objects → Objects → Type 0
Others = Disturbing ℕ listed others_map

reconcile-Outcome_example :
    Outcome example busy
      (disturbed-IsShared ℕ listed others_map)
      example-IsSound
      authelia
      main_request
      (λ a. Joint (AutheliaChange (λ k ns n st. st k ns n) a) Others)
      start
      (reconcile example busy (library true) main_request first).1.0
unfolding disturbed-IsShared memory-IsCluster
reconcile-Outcome_example =
    reconcile-Outcome example busy (disturbed-IsShared ℕ listed others_map) example-IsSound
      (library true) main_request first

reconcile_client-Outcome_example :
    Outcome example busy
      (disturbed-IsShared ℕ listed others_map)
      example-IsSound
      oauth_client
      client_request
      (λ x. Joint (ClientChange (λ k ns n st. st k ns n) example x) Others)
      start
      (reconcile_client example busy client_request first).1.0
unfolding disturbed-IsShared memory-IsCluster
reconcile_client-Outcome_example =
    reconcile_client-Outcome example busy (disturbed-IsShared ℕ listed others_map) example-IsSound
      client_request first

-- The other one leaves objects of other kinds.
Others-elsewhere :
    (u v : Objects) (k : Kind) (ns n : String)
    → ¬ (k ≡ config_map)
    → Others u v
    → v k ns n ≡ u k ns n
Others-elsewhere u v k ns n differs step =
    ap (λ st. st k ns n) step
    ∙ (put-Puts config_map _ others_map u).elsewhere k ns n (λ (same, _, _). differs same)

run_keeps_core_example :
    (y : Secret) × ((run example busy
          (library true)
          (for_client_controller client_request
            ∷ for_authelia_controller main_request
            ∷ for_authelia_controller main_request
            ∷ [])
          first).0
        secret "auth" "main-secrets"
      ≡ some y)
    × (bytes_at "SESSION_ENCRYPTION_KEY" (map_of y.contents) ≡ "kept")
unfolding disturbed-IsShared memory-IsCluster bytes_at
run_keeps_core_example =
    run_keeps_core example busy (library true) (disturbed-IsShared ℕ listed others_map)
      example-IsSound
      (for_client_controller client_request
        ∷ for_authelia_controller main_request
        ∷ for_authelia_controller main_request
        ∷ [])
      first "auth" "main-secrets" half_made "SESSION_ENCRYPTION_KEY"
      (λ u v step. inr (λ x found. (
        x,
        Others-elsewhere u v secret "auth" "main-secrets" (kinds_differ secret config_map refl) step
            ∙ found,
        λ k core there. refl,
      )))
      refl refl refl

run-Untouched_example :
    Untouched example busy
      (library true)
      (disturbed-IsShared ℕ listed others_map)
      example-IsSound
      authelia
      (some main)
      ((run example busy (library true) (for_authelia_controller main_request ∷ []) first).0
        authelia "auth" "main")
unfolding disturbed-IsShared memory-IsCluster
run-Untouched_example =
    run-Untouched example busy (library true) (disturbed-IsShared ℕ listed others_map)
      example-IsSound (for_authelia_controller main_request ∷ []) first authelia "auth" "main"
      (λ u v step. inr (
        rw
          (Others-elsewhere u v authelia "auth" "main" (kinds_differ authelia config_map refl) step)
          refl))

failed_print :
    render_config parse_example (printed false) main.spec.settings [] [] "auth.example.org"
    ≡ err marshalling_config
unfolding render_config layer
failed_print = refl

reconcile-EndsIn_example :
    EndsIn
      (reconcile example cluster (library true) main_request)
      first
      (record { requeue_after = 10 })
unfolding memory-IsCluster
reconcile-EndsIn_example =
    reconcile-EndsIn example example-IsReliable cluster (memory-IsCluster ℕ listed)
      (memory-IsUp ℕ listed) main example-IsSound (library true) main_request first main no_clients
      [] [] "theme: dark" refl refl waiting no_rules dark

reconcile-Refusal_example :
    reconcile example cluster (library false) main_request first ≡ (err marshalling_config, first)
reconcile-Refusal_example =
    reconcile-Refusal example cluster (library false) main main_request first marshalling_config
      refl (rendering no_clients [] [] waiting no_rules failed_print)

reconcile-Reconciled_example :
    Reconciled example cluster
      (memory-IsCluster ℕ listed)
      (library true)
      main
      first
      (reconcile example cluster (library true) main_request first).1
      (record { requeue_after = 10 })
reconcile-Reconciled_example =
    reconcile-Reconciled example cluster (memory-IsCluster ℕ listed) (memory-IsCurrent ℕ listed)
      example-IsSound (library true) main_request main (record { requeue_after = 10 }) first
      (reconcile example cluster (library true) main_request first).1 refl reconcile_run

reconcile_client-Reconciled_example :
    (done ≡ done)
    × ClientReconciled example cluster
        (memory-IsCluster ℕ listed)
        (client false)
        start
        (reconcile_client example cluster client_request first).1.0
reconcile_client-Reconciled_example =
    reconcile_client-Reconciled example cluster (memory-IsCluster ℕ listed)
      (memory-IsCurrent ℕ listed) example-IsSound client_request (client false) done first
      (reconcile_client example cluster client_request first).1 refl client_run
