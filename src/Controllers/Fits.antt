-- ===== src/Controllers/Fits.antt =====
-- What the mutations of internal/controller give fits what may be written.
use heliop.Base.{
  String, Bool, true, false, Option, none, some, ◌≡◌, ◌⊎◌, refl, ap, ◌==◌, inl, inr, Bool-cases,
  contains,
}
use heliop.Base.Dict.{Dict, lookup}
use heliop.Base.Options.{get_or}
use heliop.Base.Result.{Result, ok, Ensures, Ensures-of_eq, Ensures-eq, Ensures->>=}
use heliop.Api.{Authelia, AutheliaOauthClient}
use heliop.Kubernetes.{OwnerReference, ObjectMeta, Secret, ConfigMap, Service, Deployment}
use heliop.Cluster.{
  Kind, ClusterClient, owner_reference, authelia, oauth_client, secret, config_map, service,
  deployment,
}
use heliop.Mutations.{
  blank_secret, mutate_config_map, mutate_service, mutate_deployment, mutate_core_secret,
}
use heliop.OauthClients.{client_data, mutate_client_secret, client_id_key, client_id_of}
use heliop.OauthClients.Data.{
  IsClientData, client_keys, client_data_confidential, client_data_public,
}
use heliop.Resources.{build_config_map, build_service, build_deployment}
use heliop.Secrets.{Crypto, IsSound, map_of, generated_core_secret_data}
use heliop.Secrets.Once.{IsCompleted, generated_core_secret_data_lem}
use heliop.Writes.{contents_of, IsOwnedBy, AutheliaFit, ClientFit}

contents_of-current :
    (ns n : String) (o : Option Secret)
    → map_of (get_or (blank_secret ns n) o).contents ≡ contents_of o
contents_of-current ns n none = refl
contents_of-current ns n (some x) = refl

module _ (own : ObjectMeta → Result ObjectMeta) {S : Type 0} where
  pub mutate_config_map-contents :
      (desired cm : ConfigMap) (s : S)
      → Ensures (λ r. r.0.contents ≡ desired.contents) (mutate_config_map own desired cm s)
  unfolding mutate_config_map
  mutate_config_map-contents desired cm s =
      Ensures->>= (λ _. Unit {0}) _ (own _) _ (Ensures-of_eq _ _ (λ _ _. tt)) (λ meta _. refl)

  pub mutate_service-exact :
      (desired svc : Service) (s : S)
      → Ensures (λ r. r.0 ≡ record desired { meta = r.0.meta }) (mutate_service own desired svc s)
  unfolding mutate_service
  mutate_service-exact desired svc s =
      Ensures->>= (λ _. Unit {0}) _ (own _) _ (Ensures-of_eq _ _ (λ _ _. tt)) (λ meta _. refl)

  pub mutate_deployment-exact :
      (desired dep : Deployment) (s : S)
      → Ensures
          (λ r. r.0 ≡ record desired { meta = r.0.meta; ready_replicas = r.0.ready_replicas })
          (mutate_deployment own desired dep s)
  unfolding mutate_deployment
  mutate_deployment-exact desired dep s =
      Ensures->>= (λ _. Unit {0}) _ (own _) _ (Ensures-of_eq _ _ (λ _ _. tt)) (λ meta _. refl)

-- What `own` gives has a given owner.
abbrev pub Owns : (ObjectMeta → Result ObjectMeta) → OwnerReference → Type 0
Owns own owner = (meta meta' : ObjectMeta) → own meta ≡ ok meta' → meta'.owner ≡ some owner

pub own-Owns :
    {Source : Type 0} (cc : ClusterClient Source)
    → ((k : Kind) (namespace name : String) (meta meta' : ObjectMeta)
        → cc.own k namespace name meta ≡ ok meta'
        → meta' ≡ record meta { owner = some (owner_reference k name) })
    → (k : Kind) (namespace name : String) → Owns (cc.own k namespace name) (owner_reference k name)
own-Owns cc owned k namespace name meta meta' e =
    ap (λ m. m.owner) (owned k namespace name meta meta' e)

module _ (own : ObjectMeta → Result ObjectMeta) {S : Type 0} (a : Authelia)
    (owns : Owns own (owner_reference authelia a.name)) where
  pub mutate_config_map-Fit :
      (rendered : String) (cm : ConfigMap) (o : Option ConfigMap) (s : S)
      → Ensures
          (λ r. AutheliaFit a config_map o r.0)
          (mutate_config_map own (build_config_map a rendered) cm s)
  unfolding mutate_config_map
  mutate_config_map-Fit rendered cm o s =
      Ensures->>= (IsOwnedBy authelia a.name) _ (own _) _ (Ensures-of_eq _ _ (owns _))
        (λ meta is_owned. (rendered, refl, is_owned))

  pub mutate_service-Fit :
      (svc : Service) (o : Option Service) (s : S)
      → Ensures (λ r. AutheliaFit a service o r.0) (mutate_service own (build_service a) svc s)
  unfolding mutate_service
  mutate_service-Fit svc o s =
      Ensures->>= (IsOwnedBy authelia a.name) _ (own _) _ (Ensures-of_eq _ _ (owns _))
        (λ meta is_owned. (refl, is_owned))

  pub mutate_deployment-Fit :
      (oidc_enabled : Bool) (checksum : String)
      → (dep : Deployment) (o : Option Deployment) (s : S)
      → Ensures
          (λ r. AutheliaFit a deployment o r.0)
          (mutate_deployment own (build_deployment a oidc_enabled checksum) dep s)
  unfolding mutate_deployment
  mutate_deployment-Fit oidc_enabled checksum dep o s =
      Ensures->>= (IsOwnedBy authelia a.name) _ (own _) _ (Ensures-of_eq _ _ (owns _))
        (λ meta is_owned. (oidc_enabled, checksum, refl, is_owned))

module _ (c : Crypto) (sound : IsSound c) (own : ObjectMeta → Result ObjectMeta) where
  pub mutate_core_secret-Fit :
      (a : Authelia) (ns n : String) (o : Option Secret) (s : c.Source)
      → Owns own (owner_reference authelia a.name)
      → (a.spec.deployment.existing_secret == "") ≡ true
      → Ensures
          (λ r. AutheliaFit a secret o r.0)
          (mutate_core_secret c own a (get_or (blank_secret ns n) o) s)
  unfolding mutate_core_secret
  mutate_core_secret-Fit a ns n o s owns managed =
      let x = get_or (blank_secret ns n) o in
      Ensures->>= (λ r. IsCompleted (contents_of o) r.0) _
        (generated_core_secret_data c x.contents s) _
        (Ensures-of_eq _ _ (λ (m, t) e.
          rw (contents_of-current ns n o) at
            (generated_core_secret_data_lem c sound x.contents s t m e).0))
        (λ (m, t) completed.
          Ensures->>= (IsOwnedBy authelia a.name) _ (own _) _ (Ensures-of_eq _ _ (owns _))
            (λ meta is_owned. (managed, completed, is_owned)))

  -- The data of a client's Secret.
  abbrev DataFit : AutheliaOauthClient → Dict String → Dict String → Type 0
  DataFit client m n =
      (lookup client_id_key n ≡ some (client_id_of client))
      × ((client.spec.public ≡ true) ⊎ IsClientData c client m n)
      × ((k : String) → contains client_keys k ≡ false → lookup k n ≡ lookup k m)

  client_data-Fit :
      (client : AutheliaOauthClient) (m : Option (Dict String)) (s t : c.Source) (n : Dict String)
      → client_data c client m s ≡ ok (n, t)
      → DataFit client (map_of m) n
  client_data-Fit client m s t n e = elim (Bool-cases client.spec.public) [
    | inl public ↦
        let (n1, run, id, _, _, others) = client_data_public c client m s public in
        let same : n1 ≡ n = Ensures-eq (λ r. n1 ≡ r.0) (client_data c client m s) (rw run refl) e in
        rw (← same) (id, inl public, others)
    | inr confidential ↦
        let d = client_data_confidential c sound client m s t n confidential e in
        (d.client_id, inr d, d.others)
  ]

  pub mutate_client_secret-Fit :
      (client : AutheliaOauthClient) (ns n : String) (o : Option Secret) (s : c.Source)
      → Owns own (owner_reference oauth_client client.name)
      → Ensures
          (λ r. ClientFit c client secret o r.0)
          (mutate_client_secret c own client (get_or (blank_secret ns n) o) s)
  unfolding mutate_client_secret
  mutate_client_secret-Fit client ns n o s owns =
      let x = get_or (blank_secret ns n) o in
      Ensures->>= (λ r. DataFit client (contents_of o) r.0) _ (client_data c client x.contents s) _
        (Ensures-of_eq _ _ (λ (m, t) e.
          rw (contents_of-current ns n o) at (client_data-Fit client x.contents s t m e)))
        (λ (m, t) (id, credentials, others).
          Ensures->>= (IsOwnedBy oauth_client client.name) _ (own _) _ (Ensures-of_eq _ _ (owns _))
            (λ meta is_owned. (id, credentials, others, is_owned)))
