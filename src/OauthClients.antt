-- ===== src/OauthClients.antt =====
-- internal/controller/autheliaoauthclient_controller.go, and the functions on clients of
-- internal/controller/authelia_controller.go. `own` stands for `SetControllerReference`, which records
-- the owner on the object or fails.
pub mod Data
pub mod Collected
pub mod Ready
pub mod Repeat
pub mod Routing
pub mod Tests
pub mod Totality
pub mod Untargeted
pub mod Verified
use heliop.Base.{
  ℕ, suc, zero, ◌+◌, String, ◌<>◌, Bool, true, false, Option, none, some, List, [], ◌∷◌, ◌==◌,
  if◌then◌else◌,
}
use heliop.Base.Dict.{Dict, lookup, insert, erase}
use heliop.Base.Result.{Error, Result, ok, err, panic, not_found, ◌>>=◌}
use heliop.Api.{Authelia, AutheliaOauthClient, AutheliaOauthClientSpec}
use heliop.Kubernetes.{ObjectMeta, Secret}
use heliop.Render.{OidcClient}
use heliop.Secrets.{Crypto, bytes_at, map_of, hash_client_secret}

abbrev pub client_id_key : String
client_id_key = "client_id"

abbrev pub client_secret_key : String
client_secret_key = "client_secret"

abbrev pub digest_key : String
digest_key = "client_secret_digest"

-- The client ID of a resource: the name where none is given.
abbrev pub client_id_of : AutheliaOauthClient → String
client_id_of client = if client.spec.client_id == "" then client.name else client.spec.client_id

abbrev pub oauth_secret_name : AutheliaOauthClient → String
oauth_secret_name client = client.name <> "-oauth-secret"

module _ (c : Crypto) where
  unfoldable pub generate_secret : c.Source → Result (String × c.Source)
  generate_secret s = c.read 48 s >>= λ (b, t). ok (c.raw_url b, t)

  fill_client_secret : Dict String × c.Source → Result (Dict String × c.Source)
  unfolding bytes_at insert generate_secret
  fill_client_secret (m, s) =
      if bytes_at client_secret_key m == ""
      then (generate_secret s >>= λ (v, t). ok (insert client_secret_key v m, t))
      else ok (m, s)

  fill_digest : Dict String × c.Source → Result (Dict String × c.Source)
  unfolding bytes_at insert hash_client_secret
  fill_digest (m, s) =
      if bytes_at digest_key m == ""
      then (hash_client_secret c (bytes_at client_secret_key m) s >>= λ (v, t).
          ok (insert digest_key v m, t))
      else ok (m, s)

  -- What the mutation of the client Secret makes of its data.
  unfoldable pub client_data :
      AutheliaOauthClient → Option (Dict String) → c.Source → Result (Dict String × c.Source)
  unfolding insert erase fill_client_secret fill_digest
  client_data client contents s =
      let m = insert client_id_key (client_id_of client) (map_of contents) in
      if client.spec.public
      then ok (erase digest_key (erase client_secret_key m), s)
      else (fill_client_secret (m, s) >>= λ st. fill_digest st)

  -- The mutation that `CreateOrUpdate` applies.
  unfoldable pub mutate_client_secret :
      (ObjectMeta → Result ObjectMeta)
      → AutheliaOauthClient
      → Secret
      → c.Source
      → Result (Secret × c.Source)
  unfolding client_data insert
  mutate_client_secret own client secret s = do
    (n, t) ← client_data client secret.contents s
    let labels = insert "app.kubernetes.io/managed-by" "heliop" (map_of secret.meta.labels)
    meta ← own (record secret.meta { labels = some labels })
    ok (record { meta = meta; type = "Opaque"; contents = some n }, t)

-- The namespace of the Authelia that a client refers to.
unfoldable pub reference_namespace : AutheliaOauthClient → String
reference_namespace client =
    if client.spec.authelia_ref.namespace == ""
    then client.namespace
    else client.spec.authelia_ref.namespace

unfoldable pub client_targets : AutheliaOauthClient → Authelia → Bool
unfolding reference_namespace
client_targets client a =
    if client.spec.authelia_ref.name == a.name
    then reference_namespace client == a.namespace
    else false

-- `reconcile.Request`
pub record Request : Type 0 where
  pub namespace : String
  pub name : String

unfoldable pub map_client_to_authelia : AutheliaOauthClient → List Request
unfolding reference_namespace
map_client_to_authelia client =
    if client.spec.authelia_ref.name == ""
    then []
    else record { namespace = reference_namespace client; name = client.spec.authelia_ref.name }
      ∷ []

-- The clients that are ready, and the number of those that are not.
pub record Listing : Type 0 where
  pub clients : List OidcClient
  pub missing : ℕ

digest_of : Result (Dict String) → Result String
unfolding bytes_at
digest_of (ok contents) = ok (bytes_at digest_key contents)
digest_of (err not_found) = ok ""
digest_of (err e) = err e
digest_of panic = panic

-- The name of the client's Secret, from its status.
abbrev pub secret_name_of : AutheliaOauthClient → String
secret_name_of client =
    let name = client.status.secret_name in if name == "" then oauth_secret_name client else name

abbrev named : AutheliaOauthClient → AutheliaOauthClientSpec
named client = record client.spec { client_id = client_id_of client }

abbrev pub with_client : String → AutheliaOauthClient → Listing → Listing
with_client digest client l = record l {
  clients = record { spec = named client; secret_digest = digest } ∷ l.clients;
}

with_digest : AutheliaOauthClient → Listing → String → Listing
with_digest client l digest =
    if digest == "" then record l { missing = suc l.missing } else with_client digest client l

-- `get` reads the data of a Secret by its namespace and name.
module _ (get : String → String → Result (Dict String)) where
  unfoldable pub client_secret_digest : AutheliaOauthClient → Result String
  unfolding digest_of
  client_secret_digest client = digest_of (get client.namespace (secret_name_of client))

  -- What the loop of `collectClients` does with a client and, after it, with the others.
  listed : Authelia → AutheliaOauthClient → Result Listing → Result Listing
  unfolding client_targets client_secret_digest with_digest
  listed a client rest =
      if client_targets client a
      then (if client.spec.public
          then (rest >>= λ l. ok (with_client "" client l))
          else (client_secret_digest client >>= λ digest.
              rest >>= λ l. ok (with_digest client l digest)))
      else rest

  -- `collectClients`, from the list that the API returns.
  unfoldable pub collect_clients : Authelia → List AutheliaOauthClient → Result Listing
  unfolding listed
  collect_clients a [] = ok (record { clients = []; missing = 0 })
  collect_clients a (client ∷ clients) = listed a client (collect_clients a clients)
