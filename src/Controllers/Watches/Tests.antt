-- ===== src/Controllers/Watches/Tests.antt =====
-- The watches of both controllers, on the cluster in memory.
use mathlib.Core.List.{mem-cons_self, not-mem-nil}
use heliop.Base.{
  ℕ, String, true, Mem, false, none, some, [], ◌∷◌, ◌≡◌, ◌⊎◌, refl, inr, ◌==◌, ◌&&◌, if◌then◌else◌,
  ◌↔◌,
}
use heliop.Api.{AutheliaOauthClient}
use heliop.Kubernetes.{Secret}
use heliop.Cluster.{secret, authelia, oauth_client, ingress, owner_reference}
use heliop.Cluster.Shared.{alone}
use heliop.Ingress.Tests.{site, site_contributes, parse_example}
use heliop.Mutations.{blank_meta}
use heliop.OauthClients.Tests.{client}
use heliop.Resources.Tests.{main}
use heliop.Secrets.Tests.{example, example-IsSound}
use heliop.Writes.Frames.{String-ne, Kind-discrete}
use heliop.Controllers.{World, reconcile_client}
use heliop.Controllers.Example.{Objects, memory-IsCluster}
use heliop.Controllers.Handover.Tests.{made_secret, held_secret}
use heliop.Controllers.Runs.{for_client_controller, run, run_one}
use heliop.Controllers.Sample.{library, start, listed, cluster, first, main_request, client_request}
use heliop.Controllers.Watches.{Event, authelia_setup}
use heliop.Controllers.Watches.Example.{builder, builder-IsBuilder}
use heliop.Controllers.Watches.Inputs.{authelia_setup-IsInput}
use heliop.Controllers.Watches.Unrouted.{
  authelia_setup-secret_iff, ShowsOwned, reconcile_client-Unheard, secret_change,
}
use heliop.Controllers.Watches.Unneeded.{SameClients, SameRules}
use heliop.Ingress.{Ingress, has_rule_annotations}
use heliop.Controllers.{map_ingress_to_authelia}
use heliop.Controllers.Watches.Queue.{Queue, Happens, run_ends, ingress_changes, Reach-IsUpToDate}
use heliop.Writes.{Reach, here, next}
use heliop.Controllers.{reconcile}
use heliop.Controllers.Sample.{reconcile_run}
use heliop.Controllers.Watches.Written.{is_secret, IsWatched, run-IsWatched}

-- An Ingress is created.
abbrev created : Event ingress
created = record { old = none; new = some site }

authelia_setup-IsInput_example :
    Mem main_request (builder (authelia_setup example cluster) ingress created start)
authelia_setup-IsInput_example =
    authelia_setup-IsInput example cluster parse_example builder builder-IsBuilder main start
      ingress site created (String-ne "main" "" refl) (inr refl)
      (site_contributes, (main ∷ [], refl, mem-cons_self))

-- The client of which the status names the Secret, and a cluster without that Secret.
abbrev reported : AutheliaOauthClient
reported = record (client false) { status = record { secret_name = "grafana-oauth-secret" } }

abbrev deleted : Objects
deleted oauth_client ns n = if ns == "auth" && n == "grafana" then some reported else none
deleted _ ns n = none

abbrev after : World example cluster
after = (reconcile_client example cluster client_request (deleted, 0)).1

reconcile_client-Unheard_example :
    (after.0 secret "auth" "grafana-oauth-secret" ≡ none)
    ⊎ ((secret ≡ secret)
        × ◌≡◌ {A = String} "auth" "auth"
        × ◌≡◌ {A = String} "grafana-oauth-secret" "grafana-oauth-secret"
        × ¬ Mem main_request (
            builder
              (authelia_setup example cluster)
              secret
              (secret_change example cluster
                (memory-IsCluster ℕ listed)
                example-IsSound
                reported
                deleted
                after.0)
              after.0))
unfolding memory-IsCluster
reconcile_client-Unheard_example =
    reconcile_client-Unheard example cluster (memory-IsCluster ℕ listed) example-IsSound reported
      builder builder-IsBuilder client_request (deleted, 0) secret "auth" "grafana-oauth-secret"
      after.0 main_request refl refl refl

abbrev owned_secret : Secret
owned_secret = record {
  meta = record (blank_meta "auth" "main-secrets") {
    owner = some (owner_reference authelia "main");
  };
  type = "Opaque";
  contents = none;
}

-- The core Secret is deleted.
abbrev removed : Event secret
removed = record { old = some owned_secret; new = none }

authelia_setup-secret_iff_example :
    Mem main_request (builder (authelia_setup example cluster) secret removed start)
    ↔ ∥ ShowsOwned example cluster builder builder-IsBuilder removed main_request ∥₁
authelia_setup-secret_iff_example =
    authelia_setup-secret_iff example cluster builder builder-IsBuilder removed start main_request

run-IsWatched_example :
    (start secret "auth" "grafana-oauth-secret" ≡ some made_secret)
    ⊎ IsWatched example cluster builder secret
        (record { namespace = "auth"; name = "grafana-oauth-secret" })
        made_secret
unfolding memory-IsCluster run run_one
run-IsWatched_example =
    run-IsWatched example cluster builder builder-IsBuilder
      (alone cluster (memory-IsCluster ℕ listed)) example-IsSound (library true)
      (for_client_controller client_request ∷ []) first secret "auth" "grafana-oauth-secret"
      made_secret (λ u v no_one. absurd no_one) is_secret refl held_secret

-- An Ingress without annotations is created.
abbrev plain : Ingress
plain = record site { annotations = [] }

abbrev plain_created : Event ingress
plain_created = record { old = none; new = some plain }

no_request : builder (authelia_setup example cluster) ingress plain_created start ≡ []
unfolding map_ingress_to_authelia has_rule_annotations Kind-discrete
no_request = refl

-- A request waits; its run ends; an Ingress without annotations is created.
abbrev waiting : Queue
waiting = record {
  clients = client false ∷ [];
  ingresses = [];
  seen_clients = [];
  seen_ingresses = [];
  pending = main_request ∷ [];
  missed = false;
}

abbrev ran : Queue
ran = record waiting { seen_clients = client false ∷ []; pending = [] }

abbrev idle : Queue
idle = record ran {
  ingresses = plain ∷ [];
  pending = builder (authelia_setup example cluster) ingress plain_created start;
}

history : Reach (Happens example cluster (library true) builder main) waiting idle
history =
    next
      (next here (
        run_ends first (reconcile example cluster (library true) main_request first).1
          (record { requeue_after = 10 }) [] refl refl reconcile_run refl))
      (ingress_changes [] [] plain_created start (main ∷ []) refl mem-cons_self refl refl)

Reach-IsUpToDate_example :
    SameClients main (client false ∷ []) (client false ∷ [])
    × ((false ≡ true) ⊎ SameRules [] (plain ∷ []))
Reach-IsUpToDate_example =
    Reach-IsUpToDate example cluster (library true) builder main builder-IsBuilder
      (String-ne "main" "" refl) mem-cons_self history (λ m. not-mem-nil (rw no_request at m))
