-- ===== src/Controllers/Steady.antt =====
-- Two runs of the Authelia controller with the same inputs.
mod Tests
use mathlib.Core.Path.{subst}
use heliop.Base.{String, some, List, ◌≡◌, refl, sym, ap, ◌∙◌}
use heliop.Base.Result.{Result, ok, Ensures-eq}
use heliop.Json.{Object}
use heliop.Api.{ℤ, Authelia, AutheliaStatus}
use heliop.Kubernetes.{ObjectMeta, ConfigMap, Service, Deployment}
use heliop.Cluster.{
  config_map, service, deployment, authelia, ingress, ClusterClient, IsCluster, IsCurrent,
}
use heliop.Ingress.Collect.{collect_ingress_rules}
use heliop.Names.{config_map_name}
use heliop.OauthClients.{Request, Listing}
use heliop.Render.{OidcClient, render_config}
use heliop.Resources.{build_config_map, build_service, build_deployment}
use heliop.Secrets.{Crypto, IsSound}
use heliop.Controllers.{Libraries, ReconcileResult, World, read_clients, reconcile}
use heliop.Controllers.Reconciled.{Deployed, reconcile-Reconciled}

same_ok : {A : Type 0} (m n : Result A) (a b : A) → m ≡ n → m ≡ ok a → n ≡ ok b → a ≡ b
same_ok m n a b e h g = Ensures-eq (λ z. a ≡ z) (ok a) refl (sym h ∙ e ∙ g)

abbrev with_meta : ObjectMeta → Service → Service
with_meta meta x = record x { meta = meta }

abbrev with_state : ObjectMeta → ℤ → Deployment → Deployment
with_state meta ready x = record x { meta = meta; ready_replicas = ready }

module _ (c : Crypto) (cc : ClusterClient c.Source) (laws : IsCluster cc) where
  -- The ConfigMap has the same data; the Deployment differs in its metadata and in the number of ready
  -- replicas at most, so that its pods are not replaced; the Service in its metadata.
  pub record SameWorkload (a : Authelia) (st st' : cc.State) : Type 0 where
    pub config :
        (x y : ConfigMap) × (laws.find config_map a.namespace (config_map_name a) st ≡ some x)
        × (laws.find config_map a.namespace (config_map_name a) st' ≡ some y)
        × (y.contents ≡ x.contents)
    pub address :
        (x y : Service) × (laws.find service a.namespace a.name st ≡ some x)
        × (laws.find service a.namespace a.name st' ≡ some y)
        × (y ≡ record x { meta = y.meta })
    pub workload :
        (x y : Deployment) × (laws.find deployment a.namespace a.name st ≡ some x)
        × (laws.find deployment a.namespace a.name st' ≡ some y)
        × (y ≡ record x { meta = y.meta; ready_replicas = y.ready_replicas })

  module _ (lib : Libraries) (a : Authelia) where
    Deployed-SameWorkload :
        (s : AutheliaStatus) (clients : List OidcClient) (rendered : String) (ready ready' : ℤ)
        (st st' : cc.State)
        → Deployed c cc laws lib a clients rendered ready st
        → Deployed c cc laws lib (record a { status = s }) clients rendered ready' st'
        → SameWorkload a st st'
    unfolding build_config_map build_service build_deployment
    Deployed-SameWorkload s clients rendered ready ready' st st' d d' =
        let (cm, cm_fits, cm_there) = d.config in
        let (cm', cm_fits', cm_there') = d'.config in
        let (svc, svc_fits, svc_there) = d.address in
        let (svc', svc_fits', svc_there') = d'.address in
        let (dep, dep_fits, dep_there) = d.workload in
        let (dep', dep_fits', dep_there') = d'.workload in
        record {
          config = (cm, cm', cm_there, cm_there', cm_fits' ∙ sym cm_fits);
          address = (
            svc,
            svc',
            svc_there,
            svc_there',
            svc_fits' ∙ ap (with_meta svc'.meta) (sym svc_fits),
          );
          workload = (
            dep,
            dep',
            dep_there,
            dep_there',
            dep_fits'
                ∙ ap (with_state dep'.meta ready') (sym dep_fits)
                ∙ ap (λ r. with_state dep'.meta r dep) (sym (ap (λ z. z.ready_replicas) dep_fits')),
          );
        }

  -- Where reads are current, let one run of the Authelia controller end without an error, and then
  -- another one that finds the Authelia with any status and reads the same clients and the same
  -- rules as the first: the ConfigMap has the same data after both, the Service is the same but for
  -- its metadata, and so is the Deployment but for its metadata and its ready replicas.
  pub reconcile-SameWorkload :
      (fresh : IsCurrent cc laws) (sound : IsSound c) (lib : Libraries)
      → (req : Request) (a : Authelia) (s : AutheliaStatus) (r r' : ReconcileResult)
        (u v w : World c cc)
      → (l : Listing) (rules : List Object × List String)
      → cc.get authelia req.namespace req.name u.0 ≡ ok a
      → reconcile c cc lib req u ≡ (ok r, v)
      → cc.get authelia req.namespace req.name v.0 ≡ ok (record a { status = s })
      → reconcile c cc lib req v ≡ (ok r', w)
      → (read_clients c cc a u).0 ≡ ok l
      → (read_clients c cc (record a { status = s }) v).0 ≡ ok l
      → collect_ingress_rules lib.parse (cc.list ingress u.0) ≡ ok rules
      → collect_ingress_rules lib.parse (cc.list ingress v.0) ≡ ok rules
      → SameWorkload a v.0 w.0
  reconcile-SameWorkload fresh sound lib req a s r r' u v w l rules got ran got' ran' read read'
        collected collected' =
      let one = reconcile-Reconciled c cc laws fresh sound lib req a r u v got ran in
      let two =
        reconcile-Reconciled c cc laws fresh sound lib req (record a { status = s }) r' v w got'
          ran' in
      let listing : two.listing ≡ one.listing =
        same_ok _ _ _ _ refl two.read read' ∙ same_ok _ _ _ _ refl read one.read in
      let collection : ◌≡◌ {A = List Object × List String} (two.rules, two.domains)
          (one.rules, one.domains) =
        same_ok _ _ _ _ refl two.collected collected'
        ∙ same_ok _ _ _ _ refl collected one.collected in
      let texts : two.rendered ≡ one.rendered =
        same_ok
          (render_config lib.parse lib.marshal a.spec.settings two.listing.clients two.rules
            a.spec.hostname)
          (render_config lib.parse lib.marshal a.spec.settings one.listing.clients one.rules
            a.spec.hostname)
          two.rendered one.rendered (rw (listing, ap (λ p. p.0) collection) refl) two.configured
          one.configured in
      Deployed-SameWorkload lib a s one.listing.clients one.rendered one.ready two.ready v.0 w.0
        one.deployed
        (subst
          (λ t.
            Deployed c cc laws lib (record a { status = s }) one.listing.clients t two.ready w.0)
          texts
          (subst
            (λ k.
              Deployed c cc laws lib (record a { status = s }) k.clients two.rendered two.ready w.0)
            listing two.deployed))
