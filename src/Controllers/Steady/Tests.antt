-- ===== src/Controllers/Steady/Tests.antt =====
-- A second run of the Authelia controller on the cluster in memory.
use heliop.Base.{ℕ, true, some, [], ◌≡◌, refl, ap}
use heliop.Base.Action.{◌>>=◌}
use heliop.Base.Result.{ok}
use heliop.Api.{pos, Authelia, AutheliaStatus}
use heliop.Cluster.{authelia}
use heliop.Ingress.Collect.{collect_ingress_rules}
use heliop.Render.{render_config, layer}
use heliop.OauthClients.{collect_clients, client_secret_digest, client_targets}
use heliop.Controllers.Steady.{SameWorkload, reconcile-SameWorkload}
use heliop.Resources.Tests.{main}
use heliop.Secrets.{bytes_at, generated_core_secret_data, generate_alphanumeric}
use heliop.Secrets.Tests.{example, example-IsSound, example-IsReliable}
use heliop.Controllers.{World, reconcile, read_clients}
use heliop.Controllers.Example.{memory-IsCluster, memory-IsCurrent, memory-IsUp}
use heliop.Controllers.Liveness.{reconcile-EndsIn}
use heliop.Mutations.{mutate_core_secret, mutate_config_map, mutate_service, mutate_deployment}
use heliop.Resources.{build_config_map, build_service, build_deployment, storage}
use heliop.Writes.Frames.{Kind-discrete}
use heliop.Controllers.Sample.{
  waiting, no_clients, no_rules, dark, reconcile_run, library, listed, cluster, first, main_request,
}

abbrev second : World example cluster
second = (reconcile example cluster (library true) main_request first).1

abbrev written_status : AutheliaStatus
written_status = record { ready_replicas = pos 0; oidc_clients = []; access_control_rules = [] }

there_after_run : second.0 authelia "auth" "main" ≡ some (record main { status = written_status })
unfolding reconcile ◌>>=◌ mutate_core_secret mutate_config_map mutate_service mutate_deployment
    Kind-discrete generated_core_secret_data generate_alphanumeric bytes_at read_clients
    collect_clients client_secret_digest client_targets collect_ingress_rules render_config layer
    build_config_map build_service build_deployment storage
there_after_run = refl

abbrev main_reported : Authelia
main_reported = record main { status = written_status }

read_after_run : cluster.get authelia "auth" "main" second.0 ≡ ok main_reported
unfolding reconcile ◌>>=◌ mutate_core_secret mutate_config_map mutate_service mutate_deployment
    Kind-discrete generated_core_secret_data generate_alphanumeric bytes_at read_clients
    collect_clients client_secret_digest client_targets collect_ingress_rules render_config layer
    build_config_map build_service build_deployment storage
read_after_run = refl

waiting_after_run : (read_clients example cluster main_reported second).0 ≡ ok no_clients
unfolding reconcile ◌>>=◌ mutate_core_secret mutate_config_map mutate_service mutate_deployment
    Kind-discrete generated_core_secret_data generate_alphanumeric bytes_at read_clients
    collect_clients client_secret_digest client_targets collect_ingress_rules render_config layer
    build_config_map build_service build_deployment storage
waiting_after_run = refl

second_run : reconcile example cluster (library true) main_request second ≡ (
  ok (record { requeue_after = 10 }),
  (reconcile example cluster (library true) main_request second).1,
)
unfolding memory-IsCluster
second_run =
    ap (λ r. (r.0, (reconcile example cluster (library true) main_request second).1))
      (reconcile-EndsIn example example-IsReliable cluster (memory-IsCluster ℕ listed)
        (memory-IsUp ℕ listed) main_reported example-IsSound (library true) main_request second
        main_reported no_clients [] [] "theme: dark" read_after_run there_after_run
        waiting_after_run no_rules dark).1

reconcile-SameWorkload_example :
    SameWorkload example cluster
      (memory-IsCluster ℕ listed)
      main
      second.0
      (reconcile example cluster (library true) main_request second).1.0
reconcile-SameWorkload_example =
    reconcile-SameWorkload example cluster (memory-IsCluster ℕ listed) (memory-IsCurrent ℕ listed)
      example-IsSound (library true) main_request main written_status
      (record { requeue_after = 10 }) (record { requeue_after = 10 }) first second
      (reconcile example cluster (library true) main_request second).1 no_clients ([], []) refl
      reconcile_run read_after_run second_run waiting waiting_after_run no_rules no_rules
