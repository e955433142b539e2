-- ===== src/OauthClients/Tests.antt =====
-- Runs of the functions on clients of internal/controller, and the theorems at them.
use heliop.Base.{
  ℕ, String, Bool, true, false, none, some, [], ◌∷◌, ◌≡◌, ◌≢◌, ◌↔◌, refl, Mem, ◌==◌, arith, eq_iff,
  inl, inr, Bool-cases, contains, if◌then◌else◌,
}
use heliop.Base.Dict.{Dict, lookup}
use heliop.Base.Result.{Result, ok, err, not_found}
use heliop.Api.{AutheliaOauthClient}
use heliop.Secrets.{bytes_at, map_of, hash_client_secret}
use heliop.Secrets.Digest.{accepts}
use heliop.Secrets.Digest.Example.{escaping, escaping-IsSound, escaping_codec}
use heliop.OauthClients.Verified.{client_data-accepts}
use heliop.Secrets.Tests.{example, example-IsSound, example-IsReliable}
use heliop.Resources.Tests.{main}
use heliop.OauthClients.{
  client_id_key, client_secret_key, digest_key, client_id_of, generate_secret, client_data,
  mutate_client_secret, client_targets, map_client_to_authelia, client_secret_digest,
  collect_clients,
}
use heliop.OauthClients.Collected.{Answers, reference_listing, collect_clients_total}
use heliop.OauthClients.Data.{
  client_keys, IsClientData, client_data_confidential, client_data_public,
}
use heliop.OauthClients.Repeat.{client_data_idempotent}
use heliop.OauthClients.Totality.{IsCompleted, mutate_client_secret_total}
use heliop.Kubernetes.{ObjectMeta, Secret}
use heliop.OauthClients.Routing.{request_of, client_targets-iff_routed}

abbrev pub client : Bool → AutheliaOauthClient
client public = record {
  name = "grafana";
  namespace = "auth";
  spec = record {
    authelia_ref = record { name = "main"; namespace = "" };
    client_id = "";
    client_name = "";
    public = public;
    authorization_policy = "";
    consent_mode = "";
    claims_policy = "";
    lifespan = "";
    redirect_uris = [];
    scopes = [];
    grant_types = [];
    response_types = [];
    token_endpoint_auth_method = "";
    userinfo_signed_response_alg = "";
  };
  status = record { secret_name = "" };
}

abbrev pub made : Dict String
made =
    ("client_id", "grafana")
    ∷ ("client_secret", "salt")
    ∷ ("client_secret_digest", "$pbkdf2-sha512$310000$salt$saltsalt")
    ∷ []

made_run : client_data example (client false) none 0 ≡ ok (made, 2)
unfolding client_data generate_secret hash_client_secret bytes_at
made_run = refl

-- A secret is made anew beside the digest of another one, which stays.
abbrev emptied : Dict String
emptied = ("client_secret", "") ∷ ("client_secret_digest", "digest of another secret") ∷ []

stale_digest :
    client_data example (client false) (some emptied) 0
    ≡ ok (
      ("client_secret", "salt")
          ∷ ("client_secret_digest", "digest of another secret")
          ∷ ("client_id", "grafana")
          ∷ [],
      1,
    )
unfolding client_data generate_secret hash_client_secret bytes_at
stale_digest = refl

client_data_confidential_example : IsClientData example (client false) [] made
client_data_confidential_example =
    client_data_confidential example example-IsSound (client false) none 0 2 made refl made_run

client_data_public_example :
    (n : Dict String) × (client_data example (client true) (some made) 5 ≡ ok (n, 5))
    × (lookup client_id_key n ≡ some (client_id_of (client true)))
    × (lookup client_secret_key n ≡ none)
    × (lookup digest_key n ≡ none)
    × ((k : String) → contains client_keys k ≡ false → lookup k n ≡ lookup k made)
client_data_public_example = client_data_public example (client true) (some made) 5 refl

client_data_idempotent_example : client_data example (client false) (some made) 9 ≡ ok (made, 9)
client_data_idempotent_example =
    client_data_idempotent example example-IsSound (client false) none 0 2 9 made made_run

main_named : main.name ≢ ""
main_named = ground (arith, eq_iff "main" "")

client_targets-iff_routed_example :
    (client_targets (client true) main ≡ true)
    ↔ Mem (request_of main) (map_client_to_authelia (client true))
client_targets-iff_routed_example = client_targets-iff_routed (client true) main main_named

-- An API with one Secret.
abbrev get : String → String → Result (Dict String)
get namespace name = if name == "grafana-oauth-secret" then ok made else err not_found

get-Answers : Answers get
get-Answers namespace name = elim (Bool-cases (name == "grafana-oauth-secret")) [
  | inl e ↦ inr (made, rw e refl)
  | inr e ↦ inl (rw e refl)
]

collected_run :
    collect_clients get main (client false ∷ [])
    ≡ ok (record {
      clients =
          record {
            spec = record (client false).spec { client_id = "grafana" };
            secret_digest = "$pbkdf2-sha512$310000$salt$saltsalt";
          }
          ∷ [];
      missing = 0;
    })
unfolding collect_clients client_targets client_secret_digest bytes_at
collected_run = refl

collect_clients_total_example :
    collect_clients get main (client false ∷ client true ∷ [])
    ≡ ok (reference_listing get main (client false ∷ client true ∷ []))
collect_clients_total_example =
    collect_clients_total get get-Answers main (client false ∷ client true ∷ [])

abbrev empty_secret : Secret
empty_secret = record {
  meta = record { name = "grafana-oauth-secret"; namespace = "auth"; labels = none; owner = none };
  type = "";
  contents = none;
}

abbrev owned_by_grafana : ObjectMeta → Result ObjectMeta
owned_by_grafana meta =
    ok (record meta { owner = some (record { kind = "AutheliaOAuthClient"; name = "grafana" }) })

mutate_client_secret_total_example :
    (x : Secret) × (t : ℕ) × (mutate_client_secret example owned_by_grafana
        (client false)
        empty_secret
        0
      ≡ ok (x, t))
    × IsCompleted example (client false) [] (map_of x.contents)
    × ((labels : Dict String) × (owned_by_grafana
            (record empty_secret.meta { labels = some labels })
          ≡ ok x.meta)
        × (lookup "app.kubernetes.io/managed-by" labels ≡ some "heliop"))
    × (x.type ≡ "Opaque")
mutate_client_secret_total_example =
    mutate_client_secret_total example example-IsReliable example-IsSound (client false)
      owned_by_grafana (λ s. (_, refl)) empty_secret 0

-- New credentials of printers of which neither prints a dollar sign.
abbrev credentials : Dict String
credentials =
    ("client_id", "grafana")
    ∷ ("client_secret", "salt")
    ∷ ("client_secret_digest", "$pbkdf2-sha512$310000$bsbablbt$bsbablbtbsbablbt")
    ∷ []

credentials_run : client_data escaping (client false) none 0 ≡ ok (credentials, 2)
unfolding client_data generate_secret hash_client_secret bytes_at
credentials_run = refl

client_data-accepts_example :
    accepts escaping escaping_codec "$pbkdf2-sha512$310000$bsbablbt$bsbablbtbsbablbt" "salt" ≡ true
unfolding bytes_at
client_data-accepts_example =
    client_data-accepts escaping escaping-IsSound escaping_codec (client false) none 0 2 credentials
      refl refl credentials_run
