-- ===== src/Controllers/Sample.antt =====
-- An Authelia, a client and a cluster that has them, with the first runs of both controllers on it.
use heliop.Base.{
  ℕ, String, Bool, true, false, Option, none, some, List, [], ◌∷◌, ◌==◌, ◌&&◌, if◌then◌else◌, ◌≡◌,
  refl, ap,
}
use heliop.Json.{Object}
use heliop.Kubernetes.{Secret}
use heliop.Cluster.{Kind, secret, authelia, oauth_client, Obj, ClusterClient, ingress}
use heliop.Mutations.{blank_meta}
use heliop.Ingress.Tests.{parse_example}
use heliop.OauthClients.{
  Request, Listing, mutate_client_secret, client_data, generate_secret, collect_clients,
  client_secret_digest, client_targets,
}
use heliop.OauthClients.Tests.{client}
use heliop.Resources.Tests.{main}
use heliop.Secrets.Tests.{example, old, example-IsSound, example-IsReliable}
use heliop.Controllers.{Libraries, World, done, reconcile, reconcile_client, read_clients}
use heliop.Controllers.Example.{Objects, memory, memory-IsCluster, memory-IsUp}
use heliop.Base.Action.{◌>>=◌}
use heliop.Base.Result.{ok}
use heliop.Ingress.Collect.{collect_ingress_rules}
use heliop.Render.{render_config, layer}
use heliop.Secrets.{bytes_at, hash_client_secret}
use heliop.Controllers.Liveness.{reconcile-EndsIn}
use heliop.Writes.Frames.{Kind-discrete}

-- A printer that gives the theme, where it is to succeed.
abbrev pub printed : Bool → Option Object → Option String
printed true m = some "theme: dark"
printed false m = none

abbrev pub library : Bool → Libraries
library prints = record {
  parse = parse_example;
  marshal = printed prints;
  sha256 = λ s. s;
  hex = λ s. s;
}

abbrev pub half_made : Secret
half_made = record { meta = blank_meta "auth" "main-secrets"; type = "Opaque"; contents = some old }

-- An Authelia, a client of it and a core Secret that has one of its values.
abbrev pub start : Objects
start authelia ns n = if ns == "auth" && n == "main" then some main else none
start oauth_client ns n = if ns == "auth" && n == "grafana" then some (client false) else none
start secret ns n = if ns == "auth" && n == "main-secrets" then some half_made else none
start _ ns n = none

abbrev pub listed : (k : Kind) → List (Obj k)
listed authelia = main ∷ []
listed oauth_client = client false ∷ []
listed _ = []

abbrev pub cluster : ClusterClient ℕ
cluster = memory ℕ listed

abbrev pub first : World example cluster
first = (start, 0)

abbrev pub main_request : Request
main_request = record { namespace = "auth"; name = "main" }

abbrev pub client_request : Request
client_request = record { namespace = "auth"; name = "grafana" }

-- The clients that are read: the one client waits for its Secret.
pub waiting :
    (read_clients example cluster main first).0 ≡ ok (record { clients = []; missing = 1 })
unfolding read_clients ◌>>=◌ collect_clients client_secret_digest client_targets bytes_at
waiting = refl

abbrev pub no_clients : Listing
no_clients = record { clients = []; missing = 1 }

pub no_rules : collect_ingress_rules parse_example (cluster.list ingress start) ≡ ok ([], [])
unfolding collect_ingress_rules
no_rules = refl

pub dark :
    render_config parse_example (printed true) main.spec.settings [] [] "auth.example.org"
    ≡ ok "theme: dark"
unfolding render_config layer
dark = refl

pub reconcile_run : reconcile example cluster (library true) main_request first ≡ (
  ok (record { requeue_after = 10 }),
  (reconcile example cluster (library true) main_request first).1,
)
unfolding memory-IsCluster
reconcile_run =
    ap (λ r. (r.0, (reconcile example cluster (library true) main_request first).1))
      (reconcile-EndsIn example example-IsReliable cluster (memory-IsCluster ℕ listed)
        (memory-IsUp ℕ listed) main example-IsSound (library true) main_request first main
        no_clients [] [] "theme: dark" refl refl waiting no_rules dark).1

pub client_run :
    reconcile_client example cluster client_request first
    ≡ (ok done, (reconcile_client example cluster client_request first).1)
unfolding reconcile_client ◌>>=◌ mutate_client_secret Kind-discrete client_data generate_secret
    hash_client_secret bytes_at
client_run = refl
