-- ===== src/Controllers/Liveness.antt =====
-- On a cluster that is up, `Reconcile` of internal/controller/authelia_controller.go succeeds.
mod Mutations
use mathlib.Core.Option
use mathlib.Core.Option.{none-ne-some}
use heliop.Base.{
  String, Bool, true, false, Option, none, some, List, if◌then◌else◌, ◌==◌, ◌≡◌, refl, ap, ◌∙◌,
}
use heliop.Base.Action.{
  Action, pure, ◌>>=◌, ◌>>◌, Succeeds, Succeeds->>=, EndsIn, EndsIn->>=, read-ok,
}
use heliop.Base.Result.{Result, ok, IsOk, IsOk->>=}
use heliop.Json.{Object}
use heliop.Api.{ℤ, Authelia}
use heliop.Kubernetes.{ObjectMeta, Secret, ConfigMap, Service, Deployment, PersistentVolumeClaim}
use heliop.Cluster.{
  Kind, secret, config_map, service, deployment, claim, authelia, ingress, Obj, current,
  ClusterClient, IsCluster, IsUp,
}
use heliop.Ingress.Collect.{collect_ingress_rules}
use heliop.Names.{data_pvc_name}
use heliop.Mutations.{
  blank_secret, blank_config_map, blank_service, blank_deployment, mutate_config_map,
  mutate_service, mutate_deployment, mutate_core_secret,
}
use heliop.OauthClients.{Request, Listing}
use heliop.Render.{OidcClient, render_config}
use heliop.Resources.{build_config_map, build_service, build_deployment, build_data_pvc}
use heliop.Secrets.{Crypto, IsSound, IsReliable, core_secret_name}
use heliop.Writes.{for_authelia, Joint-map, Reach-map}
use heliop.Cluster.Shared.{alone}
use heliop.Writes.Inputs.{Reach-input}
use heliop.Controllers.Liveness.Mutations.{
  mutate_config_map-IsOk, mutate_service-IsOk, mutate_deployment-IsOk, mutate_core_secret-IsOk,
}
use heliop.Controllers.Moves.Authelias.{write_objects-Moves}
use heliop.Controllers.Reads.{read_clients-stays}
use heliop.Controllers.{
  Libraries, requeue, World, when_some, own_for, client_ids, reconcile_core_secret,
  create_missing_claim, reconcile_data_pvc, reconcile_config_map, reconcile_service,
  reconcile_deployment, update_status, read_clients, write_objects, reconcile_authelia,
  found_or_done, reconcile,
}

some_of_map :
    {A B : Type 0} (f : A → B) (x : Option A) (b : B)
    → Option.map f x ≡ some b
    → (a : A) × (x ≡ some a)
some_of_map f none b e = absurd (none-ne-some b e)
some_of_map f (some a) b e = (a, refl)

if-Succeeds :
    {W A : Type 0} (b : Bool) (m k : Action W A) (w : W)
    → Succeeds m w
    → Succeeds k w
    → Succeeds (if b then m else k) w
if-Succeeds true m k w h g = h
if-Succeeds false m k w h g = g

module _ (c : Crypto) (reliable : IsReliable c) (cc : ClusterClient c.Source) (laws : IsCluster cc)
    (up : IsUp cc laws) (a : Authelia) where
  -- An update that cannot fail, and a value of what it gives.
  sync-Succeeds :
      {B : Type 0} (k : Kind) (x : Obj k) (mutate : Obj k → c.Source → Result (Obj k × c.Source))
      (f : Obj k → B)
      → ((y : Obj k) (s : c.Source) → IsOk (mutate y s))
      → (w : World c cc) → Succeeds (cc.create_or_update k x mutate >>= λ y. pure (f y)) w
  sync-Succeeds k x mutate f fine w =
      Succeeds->>= (cc.create_or_update k x mutate) (λ y. pure (f y)) w
        (up.updates k x mutate w.0 w.1 (fine (current laws.find k x w.0) w.1)) (λ y _. (f y, refl))

  owns : (meta : ObjectMeta) → IsOk (own_for c cc a meta)
  owns = up.owns authelia a.namespace a.name

  reconcile_core_secret-Succeeds : (w : World c cc) → Succeeds (reconcile_core_secret c cc a) w
  unfolding reconcile_core_secret
  reconcile_core_secret-Succeeds w =
      if-Succeeds (a.spec.deployment.existing_secret == "") _ _ w
        (sync-Succeeds secret (blank_secret a.namespace (core_secret_name a))
          (mutate_core_secret c (own_for c cc a) a) (λ _. tt)
          (mutate_core_secret-IsOk c reliable (own_for c cc a) owns a) w)
        (tt, refl)

  create_missing_claim-Succeeds :
      (o : Option PersistentVolumeClaim) (w : World c cc)
      → laws.find claim a.namespace (data_pvc_name a) w.0 ≡ o
      → Succeeds (create_missing_claim c cc a (cc.get claim a.namespace (data_pvc_name a) w.0)) w
  unfolding create_missing_claim
  create_missing_claim-Succeeds none w e =
      rw (up.misses claim a.namespace (data_pvc_name a) w.0 e)
        (tt, up.creates claim (build_data_pvc a) w.0 e)
  create_missing_claim-Succeeds (some x) w e =
      let (y, got) = up.gets claim a.namespace (data_pvc_name a) x w.0 e in rw got (tt, refl)

  when_some-Succeeds :
      {A : Type 0} (o : Option A) (m : Action (World c cc) (Unit {0})) (w : World c cc)
      → Succeeds m w
      → Succeeds (when_some o m) w
  when_some-Succeeds none m w h = (tt, refl)
  when_some-Succeeds (some _) m w h = h

  reconcile_data_pvc-Succeeds : (w : World c cc) → Succeeds (reconcile_data_pvc c cc a) w
  unfolding reconcile_data_pvc
  reconcile_data_pvc-Succeeds w =
      when_some-Succeeds a.spec.deployment.volume_claim_template _ w
        (create_missing_claim-Succeeds _ w refl)

  reconcile_config_map-Succeeds :
      (rendered : String) (w : World c cc) → Succeeds (reconcile_config_map c cc a rendered) w
  unfolding reconcile_config_map
  reconcile_config_map-Succeeds rendered w =
      let desired = build_config_map a rendered in
      sync-Succeeds config_map (blank_config_map desired.meta.namespace desired.meta.name)
        (mutate_config_map (own_for c cc a) desired) (λ _. tt)
        (λ y s. mutate_config_map-IsOk (own_for c cc a) owns s desired y) w

  reconcile_service-Succeeds : (w : World c cc) → Succeeds (reconcile_service c cc a) w
  unfolding reconcile_service
  reconcile_service-Succeeds w =
      let desired = build_service a in
      sync-Succeeds service (blank_service desired.meta.namespace desired.meta.name)
        (mutate_service (own_for c cc a) desired) (λ _. tt)
        (λ y s. mutate_service-IsOk (own_for c cc a) owns s desired y) w

  reconcile_deployment-Succeeds :
      (oidc_enabled : Bool) (checksum : String) (w : World c cc)
      → Succeeds (reconcile_deployment c cc a oidc_enabled checksum) w
  unfolding reconcile_deployment
  reconcile_deployment-Succeeds oidc_enabled checksum w =
      let desired = build_deployment a oidc_enabled checksum in
      sync-Succeeds deployment (blank_deployment desired.meta.namespace desired.meta.name)
        (mutate_deployment (own_for c cc a) desired) (λ y. y.ready_replicas)
        (λ y s. mutate_deployment-IsOk (own_for c cc a) owns s desired y) w

  update_status-Succeeds :
      (ready : ℤ) (ids domains : List String) (w : World c cc) (o : Authelia)
      → laws.find authelia a.namespace a.name w.0 ≡ some o
      → Succeeds (update_status c cc a ready ids domains) w
  unfolding update_status
  update_status-Succeeds ready ids domains w o found =
      (tt, up.updates_status authelia _ o w.0 found)

  module _ (lib : Libraries) (clients : List OidcClient) (rendered : String) where
    write_objects-Succeeds :
        (w : World c cc) → Succeeds (write_objects c cc lib a clients rendered) w
    unfolding write_objects
    write_objects-Succeeds w = Succeeds->>= _ _ w (reconcile_core_secret-Succeeds w) (λ _ _.
        Succeeds->>= _ _ _ (reconcile_config_map-Succeeds rendered _) (λ _ _.
          Succeeds->>= _ _ _ (reconcile_service-Succeeds _) (λ _ _.
            Succeeds->>= _ _ _ (reconcile_data_pvc-Succeeds _)
              (λ _ _. reconcile_deployment-Succeeds _ _ _))))

  module _ (sound : IsSound c) where
    -- The writes leave the resource itself.
    still_there :
        (lib : Libraries) (clients : List OidcClient) (rendered : String) (w : World c cc)
        (o : Authelia)
        → laws.find authelia a.namespace a.name w.0 ≡ some o
        → (o' : Authelia) × (laws.find authelia a.namespace a.name
              (write_objects c cc lib a clients rendered w).1.0
            ≡ some o')
    still_there lib clients rendered w o found =
        let moved =
          Reach-map (Joint-map (λ st st' h. for_authelia a h))
            (write_objects-Moves c cc (alone cc laws) sound a lib clients rendered w) in
        let same : Option.map (λ x. x.spec)
              (laws.find authelia a.namespace a.name
                (write_objects c cc lib a clients rendered w).1.0)
            ≡ Option.map (λ x. x.spec) (laws.find authelia a.namespace a.name w.0) =
          Reach-input laws.find c authelia a.namespace a.name (λ u v none. absurd none) moved in
        some_of_map (λ x. x.spec) _ o.spec (same ∙ ap (Option.map (λ x. x.spec)) found)

    after_writes-EndsIn :
        (lib : Libraries) (l : Listing) (rendered : String) (domains : List String) (w : World c cc)
        (o : Authelia)
        → laws.find authelia a.namespace a.name w.0 ≡ some o
        → EndsIn
            (write_objects c cc lib a l.clients rendered >>= λ ready.
              update_status c cc a ready (client_ids l.clients) domains >> pure (requeue l.missing))
            w
            (requeue l.missing)
    after_writes-EndsIn lib l rendered domains w o found =
        let (ready, written) = write_objects-Succeeds lib l.clients rendered w in
        let (o', there) = still_there lib l.clients rendered w o found in
        let (_, reported) =
          update_status-Succeeds ready (client_ids l.clients) domains
            (write_objects c cc lib a l.clients rendered w).1 o' there in
        EndsIn->>= _ _ w ready _ written (EndsIn->>= _ _ _ tt _ reported (_, refl))

    -- On a cluster that is up, with crypto packages that do not fail: where the Authelia is read and is
    -- there, its clients and the Ingresses are read and the configuration renders, a run returns without
    -- an error; the request comes again in ten seconds just if a client waits for its secret.
    pub reconcile-EndsIn :
        (lib : Libraries) (req : Request) (w : World c cc) (o : Authelia)
        → (l : Listing) (rules : List Object) (domains : List String) (rendered : String)
        → cc.get authelia req.namespace req.name w.0 ≡ ok a
        → laws.find authelia a.namespace a.name w.0 ≡ some o
        → (read_clients c cc a w).0 ≡ ok l
        → collect_ingress_rules lib.parse (cc.list ingress w.0) ≡ ok (rules, domains)
        → render_config lib.parse lib.marshal a.spec.settings l.clients rules a.spec.hostname
          ≡ ok rendered
        → EndsIn (reconcile c cc lib req) w (requeue l.missing)
    unfolding reconcile reconcile_authelia
    reconcile-EndsIn lib req w o l rules domains rendered got found read collected configured =
        let (v, e) = after_writes-EndsIn lib l rendered domains w o found in
        (
          v,
          ap (λ r. found_or_done (reconcile_authelia c cc lib) r w) got
              ∙ read-ok _ _ w (read_clients-stays c cc a w) l read
              ∙ read-ok _ _ w refl (rules, domains) collected
              ∙ read-ok _ _ w refl rendered configured
              ∙ e,
        )
