-- ===== src/Controllers/Handover/Tests.antt =====
-- The client controller's run on the cluster in memory, and what the other controller reads then.
use heliop.Base.{Mem, ℕ, true, false, some, [], ◌∷◌, ◌≡◌, refl, ◌==◌}
use heliop.Base.Action.{◌>>=◌}
use heliop.Base.Result.{ok}
use heliop.Kubernetes.{Secret}
use heliop.Cluster.{owner_reference, oauth_client, secret}
use heliop.OauthClients.{
  Listing, mutate_client_secret, client_data, generate_secret, collect_clients,
  client_secret_digest, client_targets,
}
use heliop.OauthClients.Tests.{client, made}
use heliop.OauthClients.Ready.{rendered_client}
use heliop.Controllers.Handover.{read_clients-reconcile_client}
use mathlib.Core.List.{mem-cons_self}
use heliop.Resources.Tests.{main}
use heliop.Secrets.{bytes_at, hash_client_secret}
use heliop.Secrets.Tests.{example, example-IsSound}
use heliop.Controllers.{done, World, reconcile_client, read_clients}
use heliop.Controllers.Example.{memory-IsCluster, memory-IsCurrent}
use heliop.Writes.Frames.{Kind-discrete}
use heliop.Controllers.Sample.{client_run, listed, cluster, first, client_request}

-- What the run of the client controller leaves.
abbrev pub made_secret : Secret
made_secret = record {
  meta = record {
    name = "grafana-oauth-secret";
    namespace = "auth";
    labels = some (("app.kubernetes.io/managed-by", "heliop") ∷ []);
    owner = some (owner_reference oauth_client "grafana");
  };
  type = "Opaque";
  contents = some made;
}

abbrev pub after_client : World example cluster
after_client = (reconcile_client example cluster client_request first).1

pub held_secret : after_client.0 secret "auth" "grafana-oauth-secret" ≡ some made_secret
unfolding reconcile_client ◌>>=◌ mutate_client_secret Kind-discrete client_data generate_secret
    hash_client_secret bytes_at
held_secret = refl

read_secret : cluster.get secret "auth" "grafana-oauth-secret" after_client.0 ≡ ok made_secret
unfolding reconcile_client ◌>>=◌ mutate_client_secret Kind-discrete client_data generate_secret
    hash_client_secret bytes_at
read_secret = refl

abbrev ready : Listing
ready = record {
  clients = rendered_client (client false) "$pbkdf2-sha512$310000$salt$saltsalt" ∷ [];
  missing = 0;
}

targeted : client_targets (client false) main ≡ true
unfolding client_targets
targeted = refl

now_ready : (read_clients example cluster main after_client).0 ≡ ok ready
unfolding reconcile_client ◌>>=◌ mutate_client_secret Kind-discrete client_data generate_secret
    hash_client_secret bytes_at read_clients collect_clients client_secret_digest client_targets
now_ready = refl

read_clients-reconcile_client_example :
    (("$pbkdf2-sha512$310000$salt$saltsalt" == "") ≡ false)
    × Mem (rendered_client (client false) "$pbkdf2-sha512$310000$salt$saltsalt") ready.clients
unfolding memory-IsCluster bytes_at
read_clients-reconcile_client_example =
    read_clients-reconcile_client example cluster (memory-IsCluster ℕ listed)
      (memory-IsCurrent ℕ listed) example-IsSound client_request (client false) done first
      after_client main (client false).status (client false ∷ []) ready made_secret refl client_run
      refl targeted refl refl mem-cons_self held_secret read_secret now_ready
