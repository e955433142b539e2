-- ===== src/Controllers.antt =====
-- The Reconcile methods of internal/controller/authelia_controller.go and of
-- autheliaoauthclient_controller.go, over the calls of the cluster's API. The state is that of the
-- cluster and of the random source.
pub mod ClientReconciled
pub mod Disturbed
pub mod Events
pub mod Example
pub mod Fits
pub mod Handover
pub mod Liveness
pub mod Moves
pub mod Reads
pub mod Reconciled
pub mod Refinement
pub mod Refused
pub mod Runs
pub mod Sample
pub mod Steady
pub mod Success
pub mod Watches
mod Tests
use heliop.Base.{
  ℕ, zero, suc, String, Bool, true, false, Option, none, some, List, [], ◌∷◌, map, ◌==◌,
  if◌then◌else◌,
}
use heliop.Base.Action.{Action, pure, reads, ◌>>=◌, ◌>>◌}
use heliop.Base.Dict.{Dict}
use heliop.Base.Result.{Result, ok, err, panic, not_found}
use heliop.Base.Sort.{sort}
use heliop.Base.Strings.{lt_str}
use heliop.Json.{Value, Object}
use heliop.Api.{ℤ, Authelia, AutheliaOauthClient}
use heliop.Kubernetes.{ObjectMeta, Secret, PersistentVolumeClaim}
use heliop.Cluster.{
  Kind, secret, config_map, service, deployment, claim, authelia, oauth_client, ingress,
  ClusterClient,
}
use heliop.Ingress.{Ingress, has_rule_annotations}
use heliop.Ingress.Collect.{collect_ingress_rules}
use heliop.Names.{data_pvc_name}
use heliop.Mutations.{
  blank_secret, blank_config_map, blank_service, blank_deployment, mutate_config_map,
  mutate_service, mutate_deployment, mutate_core_secret,
}
use heliop.OauthClients.{Request, Listing, collect_clients, mutate_client_secret, oauth_secret_name}
use heliop.Render.{OidcClient, render_config}
use heliop.Resources.{build_config_map, build_service, build_deployment, build_data_pvc}
use heliop.Secrets.{Crypto, map_of, core_secret_name}

-- What the program uses of libraries: the parser of `encoding/json`, `yaml.Marshal`, `sha256.Sum256`
-- and `hex.EncodeToString`.
pub record Libraries : Type 0 where
  pub parse : String → Option Value
  pub marshal : Option Object → Option String
  pub sha256 : String → String
  pub hex : String → String

unfoldable pub config_checksum : Libraries → String → String
config_checksum lib rendered = lib.hex (lib.sha256 rendered)

-- `ctrl.Result`, in seconds; 0 is no requeue.
pub record ReconcileResult : Type 0 where
  pub requeue_after : ℕ

abbrev pub done : ReconcileResult
done = record { requeue_after = 0 }

-- With clients that wait for their secret, the request comes again after ten seconds.
abbrev pub requeue : ℕ → ReconcileResult
requeue zero = done
requeue (suc _) = record { requeue_after = 10 }

-- `len(clients) > 0`
abbrev pub any_client : List OidcClient → Bool
any_client [] = false
any_client (_ ∷ _) = true

-- `Data` of a Secret that is read.
abbrev pub secret_data : Result Secret → Result (Dict String)
secret_data (ok x) = ok (map_of x.contents)
secret_data (err e) = err e
secret_data panic = panic

unfoldable pub client_ids : List OidcClient → List String
unfolding sort
client_ids clients = sort lt_str (map (λ c. c.spec.client_id) clients)

-- `client.IgnoreNotFound`
abbrev pub found_or_done :
    {W A : Type 0} → (A → Action W ReconcileResult) → Result A → Action W ReconcileResult
found_or_done f (ok a) w = f a w
found_or_done f (err not_found) w = (ok done, w)
found_or_done f (err e) w = (err e, w)
found_or_done f panic w = (panic, w)

-- `if x == nil { return nil }`, and what comes after it.
abbrev pub when_some : {W A : Type 0} → Option A → Action W (Unit {0}) → Action W (Unit {0})
when_some none m = pure tt
when_some (some _) m = m

abbrev pub request_for : Authelia → Request
request_for a = record { namespace = a.namespace; name = a.name }

-- An error of the list gives no request.
pub all_requests : Result (List Authelia) → List Request
all_requests (ok instances) = map request_for instances
all_requests _ = []

module _ (c : Crypto) (cc : ClusterClient c.Source) where
  abbrev pub World : Type 0
  World = cc.State × c.Source

  abbrev pub on_cluster : {A : Type 0} → Action cc.State A → Action World A
  on_cluster m w = let (r, st) = m w.0 in (r, (st, w.1))

  abbrev pub own_for : Authelia → ObjectMeta → Result ObjectMeta
  own_for a = cc.own authelia a.namespace a.name

  pub reconcile_core_secret : Authelia → Action World (Unit {0})
  unfolding core_secret_name mutate_core_secret
  reconcile_core_secret a =
      if a.spec.deployment.existing_secret == ""
      then (cc.create_or_update secret (blank_secret a.namespace (core_secret_name a))
            (mutate_core_secret c (own_for a) a)
          >> pure tt)
      else pure tt

  -- After the read of the claim: only one that is not there is created.
  pub create_missing_claim : Authelia → Result PersistentVolumeClaim → Action World (Unit {0})
  unfolding build_data_pvc
  create_missing_claim a (ok _) = pure tt
  create_missing_claim a (err not_found) = on_cluster (cc.create claim (build_data_pvc a))
  create_missing_claim a (err e) = λ w. (err e, w)
  create_missing_claim a panic = λ w. (panic, w)

  pub reconcile_data_pvc : Authelia → Action World (Unit {0})
  unfolding create_missing_claim
  reconcile_data_pvc a =
      when_some a.spec.deployment.volume_claim_template
        (λ w. create_missing_claim a (cc.get claim a.namespace (data_pvc_name a) w.0) w)

  pub reconcile_config_map : Authelia → String → Action World (Unit {0})
  unfolding build_config_map mutate_config_map
  reconcile_config_map a rendered =
      let desired = build_config_map a rendered in
      cc.create_or_update config_map (blank_config_map desired.meta.namespace desired.meta.name)
        (mutate_config_map (own_for a) desired)
      >> pure tt

  pub reconcile_service : Authelia → Action World (Unit {0})
  unfolding build_service mutate_service
  reconcile_service a =
      let desired = build_service a in
      cc.create_or_update service (blank_service desired.meta.namespace desired.meta.name)
        (mutate_service (own_for a) desired)
      >> pure tt

  -- The number of ready replicas
  pub reconcile_deployment : Authelia → Bool → String → Action World ℤ
  unfolding build_deployment mutate_deployment
  reconcile_deployment a oidc_enabled config_checksum =
      let desired = build_deployment a oidc_enabled config_checksum in
      cc.create_or_update deployment (blank_deployment desired.meta.namespace desired.meta.name)
        (mutate_deployment (own_for a) desired)
      >>= λ dep. pure dep.ready_replicas

  pub update_status : Authelia → ℤ → List String → List String → Action World (Unit {0})
  update_status a ready ids rule_domains = on_cluster (
      cc.update_status authelia (record a {
        status = record {
          ready_replicas = ready;
          oidc_clients = ids;
          access_control_rules = rule_domains;
        };
      }))

  -- `collectClients` with its two reads of the API
  pub read_clients : Authelia → Action World Listing
  unfolding collect_clients
  read_clients a = do
    clients ← reads (λ w. cc.list oauth_client w.0)
    reads (λ w.
        collect_clients (λ namespace name. secret_data (cc.get secret namespace name w.0)) a
          clients)

  module _ (lib : Libraries) where
    -- The writes of `Reconcile`, in its order.
    pub write_objects : Authelia → List OidcClient → String → Action World ℤ
    unfolding reconcile_core_secret reconcile_config_map reconcile_service reconcile_data_pvc
        reconcile_deployment config_checksum
    write_objects a clients rendered = do
      reconcile_core_secret a
      reconcile_config_map a rendered
      reconcile_service a
      reconcile_data_pvc a
      reconcile_deployment a (any_client clients) (config_checksum lib rendered)

    pub reconcile_authelia : Authelia → Action World ReconcileResult
    unfolding read_clients collect_ingress_rules render_config write_objects update_status
        client_ids
    reconcile_authelia a = do
      l ← read_clients a
      (rules, rule_domains) ← reads (λ w. collect_ingress_rules lib.parse (cc.list ingress w.0))
      rendered ←
          reads (λ w.
            render_config lib.parse lib.marshal a.spec.settings l.clients rules a.spec.hostname)
      ready ← write_objects a l.clients rendered
      update_status a ready (client_ids l.clients) rule_domains
      pure (requeue l.missing)

    -- `AutheliaReconciler.Reconcile`
    unfoldable pub reconcile : Request → Action World ReconcileResult
    unfolding reconcile_authelia
    reconcile req w =
        found_or_done reconcile_authelia (cc.get authelia req.namespace req.name w.0) w

  -- `if oauthClient.Status.SecretName != secretName { … }`
  pub update_client_status : AutheliaOauthClient → Action World (Unit {0})
  update_client_status client =
      if client.status.secret_name == oauth_secret_name client
      then pure tt
      else on_cluster (
          cc.update_status oauth_client
            (record client { status = record { secret_name = oauth_secret_name client } }))

  pub reconcile_oauth_client : AutheliaOauthClient → Action World ReconcileResult
  unfolding mutate_client_secret update_client_status
  reconcile_oauth_client client = do
    cc.create_or_update secret (blank_secret client.namespace (oauth_secret_name client))
        (mutate_client_secret c (cc.own oauth_client client.namespace client.name) client)
    update_client_status client
    pure done

  -- `AutheliaOAuthClientReconciler.Reconcile`
  unfoldable pub reconcile_client : Request → Action World ReconcileResult
  unfolding reconcile_oauth_client
  reconcile_client req w =
      found_or_done reconcile_oauth_client (cc.get oauth_client req.namespace req.name w.0) w

  unfoldable pub map_ingress_to_authelia : Ingress → cc.State → List Request
  unfolding has_rule_annotations all_requests
  map_ingress_to_authelia ing st =
      if has_rule_annotations ing then all_requests (cc.list authelia st) else []
