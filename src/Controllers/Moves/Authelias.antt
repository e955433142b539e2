-- ===== src/Controllers/Moves/Authelias.antt =====
-- Each write of internal/controller/authelia_controller.go is one that is allowed for the Authelia.
use heliop.Base.{String, Bool, Option, some, List, ◌≡◌, refl, ◌==◌}
use heliop.Base.Action.{Action, Moves}
use heliop.Base.Options.{get_or}
use heliop.Base.Result.{
  Result, ok, err, panic, parsing_additional_config, marshalling_config, generating, api, not_found,
  Ensures,
}
use heliop.Api.{ℤ, Authelia}
use heliop.Kubernetes.{PersistentVolumeClaim}
use heliop.Cluster.{
  Kind, secret, config_map, service, deployment, claim, authelia, Obj, key_of, owner_reference,
  ClusterClient,
}
use heliop.Cluster.Shared.{IsShared}
use heliop.Names.{data_pvc_name, config_map_name}
use heliop.Mutations.{
  blank_secret, blank_config_map, blank_service, blank_deployment, mutate_config_map,
  mutate_service, mutate_deployment, mutate_core_secret,
}
use heliop.Render.{OidcClient}
use heliop.Resources.{build_config_map, build_service, build_deployment, build_data_pvc}
use heliop.Secrets.{Crypto, IsSound, core_secret_name}
use heliop.Controllers.{
  Libraries, World, own_for, reconcile_core_secret, create_missing_claim, reconcile_data_pvc,
  reconcile_config_map, reconcile_service, reconcile_deployment, update_status, read_clients,
  write_objects, reconcile_authelia,
}
use heliop.Controllers.Fits.{
  Owns, own-Owns, mutate_config_map-Fit, mutate_service-Fit, mutate_deployment-Fit,
  mutate_core_secret-Fit,
}
use heliop.Controllers.Moves.{
  Scope, update-Moves, create-Moves, status-Moves, >>=-Moves, if-Moves, then_done-Moves,
  when_some-Moves, Writing,
}
use heliop.Writes.{authelia_name, AutheliaFit, here}

module _ (c : Crypto) (cc : ClusterClient c.Source) {Rely : cc.State → cc.State → Type 0}
    (laws : IsShared cc Rely) (sound : IsSound c) where
  module _ (a : Authelia) where
    abbrev pub scope : Scope
    scope = record { namespace = a.namespace; names = authelia_name a; Fit = AutheliaFit a }

    abbrev pub AutheliaMoves : {A : Type 0} → Action (World c cc) A → Type 0
    AutheliaMoves = Moves (Writing c cc laws scope)

    owns : Owns (own_for c cc a) (owner_reference authelia a.name)
    owns = own-Owns cc laws.owned authelia a.namespace a.name

    reconcile_core_secret-Moves : AutheliaMoves (reconcile_core_secret c cc a)
    unfolding reconcile_core_secret
    reconcile_core_secret-Moves =
        if-Moves c cc laws scope (a.spec.deployment.existing_secret == "") _ _
          (λ managed.
            then_done-Moves c cc laws scope _ (λ _. tt)
              (update-Moves c cc laws scope secret (blank_secret a.namespace (core_secret_name a))
                (core_secret_name a) (mutate_core_secret c (own_for c cc a) a) refl refl
                (λ o s.
                  mutate_core_secret-Fit c sound (own_for c cc a) a a.namespace (core_secret_name a)
                    o s owns managed)))
          (λ given w. here)

    -- An update of an object by a mutation of which the result fits whatever it starts from.
    sync-Moves :
        (k : Kind) (x : Obj k) (name : String)
        (mutate : Obj k → c.Source → Result (Obj k × c.Source))
        → authelia_name a k ≡ some name
        → key_of k x ≡ record { namespace = a.namespace; name = name }
        → ((y : Obj k) (o : Option (Obj k)) (s : c.Source)
            → Ensures (λ r. AutheliaFit a k o r.0) (mutate y s))
        → AutheliaMoves (cc.create_or_update k x mutate)
    sync-Moves k x name mutate owned key fits =
        update-Moves c cc laws scope k x name mutate owned key (λ o s. fits (get_or x o) o s)

    reconcile_config_map-Moves :
        (rendered : String) → AutheliaMoves (reconcile_config_map c cc a rendered)
    unfolding reconcile_config_map
    reconcile_config_map-Moves rendered =
        then_done-Moves c cc laws scope _ (λ _. tt)
          (sync-Moves config_map
            (blank_config_map (build_config_map a rendered).meta.namespace
              (build_config_map a rendered).meta.name)
            (config_map_name a) (mutate_config_map (own_for c cc a) (build_config_map a rendered))
            refl refl (mutate_config_map-Fit (own_for c cc a) a owns rendered))

    reconcile_service-Moves : AutheliaMoves (reconcile_service c cc a)
    unfolding reconcile_service
    reconcile_service-Moves =
        then_done-Moves c cc laws scope _ (λ _. tt)
          (sync-Moves service
            (blank_service (build_service a).meta.namespace (build_service a).meta.name) a.name
            (mutate_service (own_for c cc a) (build_service a)) refl refl
            (mutate_service-Fit (own_for c cc a) a owns))

    reconcile_deployment-Moves :
        (oidc_enabled : Bool) (checksum : String)
        → AutheliaMoves (reconcile_deployment c cc a oidc_enabled checksum)
    unfolding reconcile_deployment
    reconcile_deployment-Moves oidc_enabled checksum =
        let desired = build_deployment a oidc_enabled checksum in
        then_done-Moves c cc laws scope _ (λ dep. dep.ready_replicas)
          (sync-Moves deployment (blank_deployment desired.meta.namespace desired.meta.name) a.name
            (mutate_deployment (own_for c cc a) desired) refl refl
            (mutate_deployment-Fit (own_for c cc a) a owns oidc_enabled checksum))

    create_missing_claim-Moves :
        (r : Result PersistentVolumeClaim) → AutheliaMoves (create_missing_claim c cc a r)
    unfolding create_missing_claim
    create_missing_claim-Moves (ok _) w = here
    create_missing_claim-Moves (err not_found) w =
        create-Moves c cc laws scope claim (build_data_pvc a) (data_pvc_name a) refl refl
          (refl, refl) w
    create_missing_claim-Moves (err parsing_additional_config) w = here
    create_missing_claim-Moves (err marshalling_config) w = here
    create_missing_claim-Moves (err generating) w = here
    create_missing_claim-Moves (err api) w = here
    create_missing_claim-Moves panic w = here

    reconcile_data_pvc-Moves : AutheliaMoves (reconcile_data_pvc c cc a)
    unfolding reconcile_data_pvc
    reconcile_data_pvc-Moves =
        when_some-Moves c cc laws scope a.spec.deployment.volume_claim_template _
          (λ w. create_missing_claim-Moves (cc.get claim a.namespace (data_pvc_name a) w.0) w)

    update_status-Moves :
        (ready : ℤ) (ids domains : List String)
        → AutheliaMoves (update_status c cc a ready ids domains)
    unfolding update_status
    update_status-Moves ready ids domains =
        status-Moves c cc laws scope authelia _ a.name refl refl (λ o. (o, refl, refl))

    module _ (lib : Libraries) where
      pub write_objects-Moves :
          (clients : List OidcClient) (rendered : String)
          → AutheliaMoves (write_objects c cc lib a clients rendered)
      unfolding write_objects
      write_objects-Moves clients rendered =
          >>=-Moves c cc laws scope _ _ reconcile_core_secret-Moves (λ _.
            >>=-Moves c cc laws scope _ _ (reconcile_config_map-Moves rendered) (λ _.
              >>=-Moves c cc laws scope _ _ reconcile_service-Moves (λ _.
                >>=-Moves c cc laws scope _ _ reconcile_data_pvc-Moves
                  (λ _. reconcile_deployment-Moves _ _))))

      pub reconcile_authelia-Moves : AutheliaMoves (reconcile_authelia c cc lib a)
      unfolding reconcile_authelia read_clients
      reconcile_authelia-Moves =
          >>=-Moves c cc laws scope _ _
            (>>=-Moves c cc laws scope _ _ (λ w. here) (λ clients w. here))
            (λ l.
              >>=-Moves c cc laws scope _ _ (λ w. here)
                (λ (rules, domains).
                  >>=-Moves c cc laws scope _ _ (λ w. here)
                    (λ rendered.
                      >>=-Moves c cc laws scope _ _ (write_objects-Moves l.clients rendered)
                        (λ ready.
                          then_done-Moves c cc laws scope _ _ (update_status-Moves ready _ _)))))
