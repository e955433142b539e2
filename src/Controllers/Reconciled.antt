-- ===== src/Controllers/Reconciled.antt =====
-- What the cluster holds after a run of the Authelia controller that succeeds.
use mathlib.Core.Path.{subst}
use heliop.Base.{String, true, false, some, List, ◌==◌, ◌≡◌, ◌⊎◌, refl, ap, ◌∙◌, inl, inr, contains}
use heliop.Base.Action.{>>=-ok, read->>=-ok}
use heliop.Base.Result.{ok, Ensures-eq}
use heliop.Json.{Object}
use heliop.Api.{ℤ, Authelia, AutheliaStatus}
use heliop.Kubernetes.{Secret, ConfigMap, Service, Deployment}
use heliop.Cluster.{
  secret, config_map, service, deployment, authelia, ingress, ClusterClient, IsCluster, IsCurrent,
}
use heliop.Ingress.Collect.{collect_ingress_rules}
use heliop.Names.{config_map_name}
use heliop.OauthClients.{Request, Listing}
use heliop.Render.{OidcClient, render_config}
use heliop.Resources.{build_config_map, build_service, build_deployment}
use heliop.Secrets.{Crypto, IsSound, map_of, bytes_at, core_secret_name}
use heliop.Secrets.Once.{core_keys}
use heliop.Controllers.{
  Libraries, ReconcileResult, requeue, World, any_client, client_ids, config_checksum, read_clients,
  write_objects, reconcile_authelia, found_or_done, reconcile,
}
use heliop.Controllers.Reads.{read_clients-stays}
use heliop.Controllers.Success.{
  Elsewhere, Puts-Elsewhere, reconcile_core_secret-ok, reconcile_config_map-ok,
  reconcile_service-ok, reconcile_deployment-ok, reconcile_data_pvc-Elsewhere, update_status-ok,
}

module _ (c : Crypto) (cc : ClusterClient c.Source) (laws : IsCluster cc) (lib : Libraries)
    (a : Authelia) where
  -- Where the operator has the core Secret, it is there with a value for each of its keys.
  abbrev pub HasCore : cc.State → Type 0
  HasCore st =
      ((a.spec.deployment.existing_secret == "") ≡ false)
      ⊎ ((x : Secret) × (laws.find secret a.namespace (core_secret_name a) st ≡ some x)
          × ((k : String)
              → contains core_keys k ≡ true
              → (bytes_at k (map_of x.contents) == "") ≡ false))

  HasCore-stays :
      (st st' : cc.State)
      → laws.find secret a.namespace (core_secret_name a) st'
        ≡ laws.find secret a.namespace (core_secret_name a) st
      → HasCore st
      → HasCore st'
  HasCore-stays st st' same (inl given) = inl given
  HasCore-stays st st' same (inr (x, found, filled)) = inr (x, same ∙ found, filled)

  -- The ConfigMap of the configuration, the Service, the Deployment with the checksum of the same
  -- configuration, and, where the operator has the core Secret, a value for each of its keys.
  pub record Deployed (clients : List OidcClient) (rendered : String) (ready : ℤ) (st : cc.State)
      : Type 0 where
    pub core : HasCore st
    pub config :
        (x : ConfigMap) × (x.contents ≡ (build_config_map a rendered).contents)
        × (laws.find config_map a.namespace (config_map_name a) st ≡ some x)
    pub address :
        (x : Service) × (x ≡ record (build_service a) { meta = x.meta })
        × (laws.find service a.namespace a.name st ≡ some x)
    pub workload :
        (x : Deployment) × (x
          ≡ record (build_deployment a (any_client clients) (config_checksum lib rendered)) {
            meta = x.meta;
            ready_replicas = ready;
          })
        × (laws.find deployment a.namespace a.name st ≡ some x)

  write_objects-Deployed :
      (fresh : IsCurrent cc laws) (sound : IsSound c) (clients : List OidcClient)
      (rendered : String) (ready : ℤ) (u v : World c cc)
      → write_objects c cc lib a clients rendered u ≡ (ok ready, v)
      → Deployed clients rendered ready v.0
  unfolding write_objects
  write_objects-Deployed fresh sound clients rendered ready u v e =
      let (_, u1, e1, r1) = >>=-ok _ _ _ _ u e in
      let (_, u2, e2, r2) = >>=-ok _ _ _ _ u1 r1 in
      let (_, u3, e3, r3) = >>=-ok _ _ _ _ u2 r2 in
      let (_, u4, e4, e5) = >>=-ok _ _ _ _ u3 r3 in
      let (_, core) = reconcile_core_secret-ok c cc laws a fresh sound u u1 e1 in
      let (cm, cm_fits, cm_put) = reconcile_config_map-ok c cc laws a fresh rendered u1 u2 e2 in
      let (svc, svc_fits, svc_put) = reconcile_service-ok c cc laws a fresh u2 u3 e3 in
      let claim_step = reconcile_data_pvc-Elsewhere c cc laws a u3 u4 e4 in
      let (dep, dep_fits, dep_put) =
        reconcile_deployment-ok c cc laws a fresh (any_client clients)
          (config_checksum lib rendered) ready u4 v e5 in
      let s2 = Puts-Elsewhere c cc laws u1 u2 cm_put in
      let s3 = Puts-Elsewhere c cc laws u2 u3 svc_put in
      let s5 = Puts-Elsewhere c cc laws u4 v dep_put in
      record {
        core =
            HasCore-stays u1.0 v.0
              (s5 secret _ _ refl
                ∙ claim_step secret _ _ refl
                ∙ s3 secret _ _ refl
                ∙ s2 secret _ _ refl)
              core;
        config = (
          cm,
          cm_fits,
          s5 config_map _ _ refl
              ∙ claim_step config_map _ _ refl
              ∙ s3 config_map _ _ refl
              ∙ cm_put.here,
        );
        address = (svc, svc_fits, s5 service _ _ refl ∙ claim_step service _ _ refl ∙ svc_put.here);
        workload = (dep, dep_fits, dep_put.here);
      }

  abbrev pub status_of : ℤ → Listing → List String → AutheliaStatus
  status_of ready l domains = record {
    ready_replicas = ready;
    oidc_clients = client_ids l.clients;
    access_control_rules = domains;
  }

  -- A run that succeeded, from one state to another.
  pub record Reconciled (u v : World c cc) (r : ReconcileResult) : Type 0 where
    pub listing : Listing
    pub rules : List Object
    pub domains : List String
    pub rendered : String
    pub ready : ℤ
    -- Clients, rules and configuration are those of the state that the run began in.
    pub read : (read_clients c cc a u).0 ≡ ok listing
    pub collected : collect_ingress_rules lib.parse (cc.list ingress u.0) ≡ ok (rules, domains)
    pub configured :
        render_config lib.parse lib.marshal a.spec.settings listing.clients rules a.spec.hostname
        ≡ ok rendered
    pub deployed : Deployed listing.clients rendered ready v.0
    pub reported :
        (o : Authelia) × (laws.find authelia a.namespace a.name v.0
          ≡ some (record o { status = status_of ready listing domains }))
    pub answer : r ≡ requeue listing.missing

  -- The status is written last, so that what was deployed stays.
  Deployed-Elsewhere :
      (clients : List OidcClient) (rendered : String) (ready : ℤ) (u v : World c cc)
      → Elsewhere c cc laws authelia u v
      → Deployed clients rendered ready u.0
      → Deployed clients rendered ready v.0
  Deployed-Elsewhere clients rendered ready u v s d =
      let (cm, cm_fits, cm_there) = d.config in
      let (svc, svc_fits, svc_there) = d.address in
      let (dep, dep_fits, dep_there) = d.workload in
      record {
        core = HasCore-stays u.0 v.0 (s secret _ _ refl) d.core;
        config = (cm, cm_fits, s config_map _ _ refl ∙ cm_there);
        address = (svc, svc_fits, s service _ _ refl ∙ svc_there);
        workload = (dep, dep_fits, s deployment _ _ refl ∙ dep_there);
      }

  reconcile_authelia-Reconciled :
      (fresh : IsCurrent cc laws) (sound : IsSound c) (r : ReconcileResult) (u v : World c cc)
      → reconcile_authelia c cc lib a u ≡ (ok r, v)
      → Reconciled u v r
  unfolding reconcile_authelia
  reconcile_authelia-Reconciled fresh sound r u v e =
      let (l, e1, r1) = read->>=-ok _ _ _ _ u (read_clients-stays c cc a u) e in
      let ((rules, domains), e2, r2) = read->>=-ok _ _ _ _ u refl r1 in
      let (rendered, e3, r3) = read->>=-ok _ _ _ _ u refl r2 in
      let (ready, u1, e4, r4) = >>=-ok _ _ _ _ u r3 in
      let (_, u2, e5, last) = >>=-ok _ _ _ _ u1 r4 in
      let (status_step, (o, _, status_there)) =
        update_status-ok c cc laws a ready (client_ids l.clients) domains u1 u2 e5 in
      let deployed = write_objects-Deployed fresh sound l.clients rendered ready u u1 e4 in
      subst (λ w. Reconciled u w r) (ap (λ p. p.1) last)
        (record {
          listing = l;
          rules = rules;
          domains = domains;
          rendered = rendered;
          ready = ready;
          read = e1;
          collected = e2;
          configured = e3;
          deployed = Deployed-Elsewhere l.clients rendered ready u1 u2 status_step deployed;
          reported = (o, status_there);
          answer =
              Ensures-eq (λ z. z ≡ requeue l.missing) (ok (requeue l.missing)) refl
                (ap (λ p. p.0) last);
        })

module _ (c : Crypto) (cc : ClusterClient c.Source) (laws : IsCluster cc)
    (fresh : IsCurrent cc laws) (sound : IsSound c) where
  -- Where reads are current, a run of the Authelia controller that finds its Authelia and ends
  -- without an error leaves in the cluster: the ConfigMap of the configuration rendered from the
  -- clients, the Ingresses and the settings that were read; the Service; the Deployment with the
  -- checksum of that same configuration; the core Secret with a value for each key, unless the user
  -- gives one; and the status. The request comes again just if a client waits for its secret.
  pub reconcile-Reconciled :
      (lib : Libraries) (req : Request) (a : Authelia) (r : ReconcileResult) (u v : World c cc)
      → cc.get authelia req.namespace req.name u.0 ≡ ok a
      → reconcile c cc lib req u ≡ (ok r, v)
      → Reconciled c cc laws lib a u v r
  unfolding reconcile
  reconcile-Reconciled lib req a r u v got e =
      reconcile_authelia-Reconciled c cc laws lib a fresh sound r u v
        (subst (λ x. found_or_done (reconcile_authelia c cc lib) x u ≡ (ok r, v)) got e)
