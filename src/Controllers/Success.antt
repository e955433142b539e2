-- ===== src/Controllers/Success.antt =====
-- What each write of `Reconcile` of internal/controller/authelia_controller.go leaves when it succeeds.
use mathlib.Core.Path.{subst}
use heliop.Base.{
  String, Bool, true, false, Option, none, some, List, ◌==◌, ◌≡◌, ◌⊎◌, refl, sym, ap, inl, inr,
  contains,
}
use heliop.Base.Action.{Action, pure, ◌>>=◌, >>=-ok, if-ok, failed, panicked}
use heliop.Base.Result.{
  Result, ok, err, panic, not_found, parsing_additional_config, marshalling_config, generating, api,
  Ensures, Ensures-eq,
}
use heliop.Cluster.{
  Kind, secret, config_map, service, deployment, claim, authelia, Obj, Key, key_of, ClusterClient,
  IsCluster, IsCurrent, Puts, current, UpdatesStatus, kind_name,
}
use heliop.Secrets.{Crypto, IsSound, map_of, bytes_at, core_secret_name}
use heliop.Secrets.Once.{core_keys}
use heliop.Api.{ℤ, Authelia}
use heliop.Kubernetes.{Secret, ConfigMap, Service, Deployment, PersistentVolumeClaim}
use heliop.Names.{config_map_name, data_pvc_name}
use heliop.Mutations.{
  blank_secret, blank_config_map, blank_service, blank_deployment, mutate_config_map,
  mutate_service, mutate_deployment, mutate_core_secret,
}
use heliop.Resources.{build_config_map, build_service, build_deployment, build_data_pvc}
use heliop.Controllers.{
  World, on_cluster, when_some, own_for, reconcile_core_secret, create_missing_claim,
  reconcile_data_pvc, reconcile_config_map, reconcile_service, reconcile_deployment, update_status,
}
use heliop.Writes.{AutheliaFit}
use heliop.Writes.Frames.{String-ne}
use heliop.Controllers.Fits.{
  mutate_config_map-contents, mutate_service-exact, own-Owns, mutate_deployment-exact,
  mutate_core_secret-Fit,
}

pub kinds_differ : (j k : Kind) → (kind_name j == kind_name k) ≡ false → ¬ (j ≡ k)
kinds_differ j k h e = String-ne (kind_name j) (kind_name k) h (ap kind_name e)

module _ (c : Crypto) (cc : ClusterClient c.Source) (laws : IsCluster cc) where
  -- Objects of other kinds stay.
  abbrev pub Elsewhere : Kind → World c cc → World c cc → Type 0
  Elsewhere k u v =
      (j : Kind) (ns n : String)
      → (kind_name j == kind_name k) ≡ false
      → laws.find j ns n v.0 ≡ laws.find j ns n u.0

  pub Puts-Elsewhere :
      {k : Kind} {key : Key} {x : Obj k} (u v : World c cc)
      → Puts laws.find k key x u.0 v.0
      → Elsewhere k u v
  Puts-Elsewhere {k} u v p j ns n other =
      p.elsewhere j ns n (λ (same, _, _). kinds_differ j k other same)

  pub unmoved : (k : Kind) (u v : World c cc) → u ≡ v → Elsewhere k u v
  unmoved k u v same j ns n other = ap (λ w. laws.find j ns n w.0) (sym same)

  -- An update that succeeds, and what is returned of the object.
  pub sync-ok :
      {B : Type 0} (fresh : IsCurrent cc laws) (k : Kind) (x : Obj k)
      (mutate : Obj k → c.Source → Result (Obj k × c.Source))
      → (P : Obj k → Type 0) (f : Obj k → B) (b : B) (u v : World c cc)
      → Ensures (λ r. P r.0) (mutate (current laws.find k x u.0) u.1)
      → (cc.create_or_update k x mutate >>= λ y. pure (f y)) u ≡ (ok b, v)
      → (y : Obj k) × P y × (f y ≡ b) × Puts laws.find k (key_of k x) y u.0 v.0
  sync-ok fresh k x mutate P f b u v fits e =
      let (y, t, ran, last) = >>=-ok (λ y. pure (f y)) b v (cc.create_or_update k x mutate) u e in
      let update = fresh.updated_ok k x y mutate u.0 t.0 u.1 t.1 ran in
      (
        y,
        Ensures-eq (λ r. P r.0) (mutate (current laws.find k x u.0) u.1) fits update.mutated,
        Ensures-eq (λ z. f y ≡ z) (ok (f y)) refl (ap (λ p. p.0) last),
        subst (λ w. Puts laws.find k (key_of k x) y u.0 w.0) (ap (λ p. p.1) last) update.written,
      )

  pub create-Elsewhere :
      (k : Kind) (x : Obj k) (u v : World c cc)
      → on_cluster c cc (cc.create k x) u ≡ (ok tt, v)
      → Elsewhere k u v
  create-Elsewhere k x u v e =
      Puts-Elsewhere u v (laws.created_ok k x u.0 v.0 (ap (λ p. (p.0, p.1.0)) e)).written

  pub status-ok :
      (k : Kind) (x : Obj k) (u v : World c cc)
      → on_cluster c cc (cc.update_status k x) u ≡ (ok tt, v)
      → UpdatesStatus laws.find k x u.0 v.0
  status-ok k x u v e = laws.updated_status_ok k x u.0 v.0 (ap (λ p. (p.0, p.1.0)) e)

  module _ (a : Authelia) where
    pub reconcile_core_secret-ok :
        (fresh : IsCurrent cc laws) (sound : IsSound c) (u v : World c cc)
        → reconcile_core_secret c cc a u ≡ (ok tt, v)
        → Elsewhere secret u v
          × (((a.spec.deployment.existing_secret == "") ≡ false)
              ⊎ ((x : Secret) × (laws.find secret a.namespace (core_secret_name a) v.0 ≡ some x)
                  × ((k : String)
                      → contains core_keys k ≡ true
                      → (bytes_at k (map_of x.contents) == "") ≡ false)))
    unfolding reconcile_core_secret
    reconcile_core_secret-ok fresh sound u v e =
        elim (if-ok (a.spec.deployment.existing_secret == "") _ _ u (ok tt, v) e) [
          | inl (managed, ran) ↦
              let blank = blank_secret a.namespace (core_secret_name a) in
              let (x, completed, _, put) =
                sync-ok fresh secret blank (mutate_core_secret c (own_for c cc a) a)
                  (λ x.
                    AutheliaFit a secret (laws.find secret a.namespace (core_secret_name a) u.0) x)
                  (λ _. tt) tt u v
                  (mutate_core_secret-Fit c sound (own_for c cc a) a a.namespace
                    (core_secret_name a) (laws.find secret a.namespace (core_secret_name a) u.0) u.1
                    (own-Owns cc laws.owned authelia a.namespace a.name) managed)
                  ran in
              (Puts-Elsewhere u v put, inr (x, put.here, λ k. completed.1.filled k))
          | inr (given, ran) ↦ (unmoved secret u v (ap (λ p. p.1) ran), inl given)
        ]

    pub reconcile_config_map-ok :
        (fresh : IsCurrent cc laws) (rendered : String) (u v : World c cc)
        → reconcile_config_map c cc a rendered u ≡ (ok tt, v)
        → (x : ConfigMap) × (x.contents ≡ (build_config_map a rendered).contents)
          × Puts laws.find config_map
              (record { namespace = a.namespace; name = config_map_name a })
              x
              u.0
              v.0
    unfolding reconcile_config_map
    reconcile_config_map-ok fresh rendered u v e =
        let desired = build_config_map a rendered in
        let blank = blank_config_map desired.meta.namespace desired.meta.name in
        let (x, fits, _, put) =
          sync-ok fresh config_map blank (mutate_config_map (own_for c cc a) desired)
            (λ x. x.contents ≡ desired.contents) (λ _. tt) tt u v
            (mutate_config_map-contents (own_for c cc a) desired
              (current laws.find config_map blank u.0) u.1)
            e in
        (x, fits, put)

    pub reconcile_service-ok :
        (fresh : IsCurrent cc laws) (u v : World c cc)
        → reconcile_service c cc a u ≡ (ok tt, v)
        → (x : Service) × (x ≡ record (build_service a) { meta = x.meta })
          × Puts laws.find service (record { namespace = a.namespace; name = a.name }) x u.0 v.0
    unfolding reconcile_service
    reconcile_service-ok fresh u v e =
        let desired = build_service a in
        let blank = blank_service desired.meta.namespace desired.meta.name in
        let (x, fits, _, put) =
          sync-ok fresh service blank (mutate_service (own_for c cc a) desired)
            (λ x. x ≡ record desired { meta = x.meta }) (λ _. tt) tt u v
            (mutate_service-exact (own_for c cc a) desired (current laws.find service blank u.0)
              u.1)
            e in
        (x, fits, put)

    pub reconcile_deployment-ok :
        (fresh : IsCurrent cc laws) (oidc_enabled : Bool) (checksum : String) (ready : ℤ)
        (u v : World c cc)
        → reconcile_deployment c cc a oidc_enabled checksum u ≡ (ok ready, v)
        → (x : Deployment) × (x ≡ record (build_deployment a oidc_enabled checksum) {
          meta = x.meta;
          ready_replicas = ready;
        })
          × Puts laws.find deployment (record { namespace = a.namespace; name = a.name }) x u.0 v.0
    unfolding reconcile_deployment
    reconcile_deployment-ok fresh oidc_enabled checksum ready u v e =
        let desired = build_deployment a oidc_enabled checksum in
        let blank = blank_deployment desired.meta.namespace desired.meta.name in
        let (x, fits, same, put) =
          sync-ok fresh deployment blank (mutate_deployment (own_for c cc a) desired)
            (λ x. x ≡ record desired { meta = x.meta; ready_replicas = x.ready_replicas })
            (λ x. x.ready_replicas) ready u v
            (mutate_deployment-exact (own_for c cc a) desired
              (current laws.find deployment blank u.0) u.1)
            e in
        (x, rw same at fits, put)

    pub create_missing_claim-Elsewhere :
        (r : Result PersistentVolumeClaim) (u v : World c cc)
        → create_missing_claim c cc a r u ≡ (ok tt, v)
        → Elsewhere claim u v
    unfolding create_missing_claim
    create_missing_claim-Elsewhere (ok _) u v e = unmoved claim u v (ap (λ p. p.1) e)
    create_missing_claim-Elsewhere (err not_found) u v e =
        create-Elsewhere claim (build_data_pvc a) u v e
    create_missing_claim-Elsewhere (err parsing_additional_config) u v e =
        absurd (failed _ tt u v e)
    create_missing_claim-Elsewhere (err marshalling_config) u v e = absurd (failed _ tt u v e)
    create_missing_claim-Elsewhere (err generating) u v e = absurd (failed _ tt u v e)
    create_missing_claim-Elsewhere (err api) u v e = absurd (failed _ tt u v e)
    create_missing_claim-Elsewhere panic u v e = absurd (panicked tt u v e)

    when_some-Elsewhere :
        {A : Type 0} (o : Option A) (k : Kind) (m : Action (World c cc) (Unit {0}))
        (u v : World c cc)
        → (m u ≡ (ok tt, v) → Elsewhere k u v)
        → when_some o m u ≡ (ok tt, v)
        → Elsewhere k u v
    when_some-Elsewhere none k m u v h e = unmoved k u v (ap (λ p. p.1) e)
    when_some-Elsewhere (some _) k m u v h e = h e

    pub reconcile_data_pvc-Elsewhere :
        (u v : World c cc) → reconcile_data_pvc c cc a u ≡ (ok tt, v) → Elsewhere claim u v
    unfolding reconcile_data_pvc
    reconcile_data_pvc-Elsewhere u v e =
        when_some-Elsewhere a.spec.deployment.volume_claim_template claim _ u v
          (create_missing_claim-Elsewhere (cc.get claim a.namespace (data_pvc_name a) u.0) u v) e

    pub update_status-ok :
        (ready : ℤ) (ids domains : List String) (u v : World c cc)
        → update_status c cc a ready ids domains u ≡ (ok tt, v)
        → Elsewhere authelia u v
          × ((o : Authelia) × (laws.find authelia a.namespace a.name u.0 ≡ some o)
              × (laws.find authelia a.namespace a.name v.0
                  ≡ some (record o {
                    status = record {
                      ready_replicas = ready;
                      oidc_clients = ids;
                      access_control_rules = domains;
                    };
                  })))
    unfolding update_status
    update_status-ok ready ids domains u v e =
        let h = status-ok authelia _ u v e in
        (Puts-Elsewhere u v h.written, (h.old, h.found, h.written.here))
