-- ===== src/Controllers/Watches/Unrouted.antt =====
-- Which Secrets the Authelia controller of internal/controller hears of, and that those of the
-- clients, of which it reads the digests, are not among them.
use mathlib.Core.List.{not-mem-nil}
use mathlib.Core.Bool.{false≢true}
use mathlib.Core.Option.{none-ne-some}
use mathlib.Core.Logic.{∥∥₁_elim}
use mathlib.Core.HLevel.{⊥_prop}
use heliop.Base.{
  String, Option, none, some, Mem, ◌≡◌, ◌⊎◌, ◌↔◌, refl, sym, ap, ◌∙◌, inl, inr, ◌==◌, true,
  String-cases,
}
use heliop.Base.Action.{Moves}
use heliop.Base.Options.{get_or}
use heliop.Base.Result.{ok}
use heliop.Api.{AutheliaOauthClient}
use heliop.Kubernetes.{Secret, OwnerReference}
use heliop.Cluster.{
  Kind, secret, config_map, service, deployment, claim, authelia, oauth_client, ingress,
  owner_reference, kind_name, ClusterClient, IsCluster,
}
use heliop.Cluster.Shared.{alone}
use heliop.Mutations.{blank_secret}
use heliop.OauthClients.{Request, mutate_client_secret, oauth_secret_name}
use heliop.Secrets.{Crypto, IsSound}
use heliop.Controllers.{World, update_client_status, reconcile_oauth_client, reconcile_client}
use heliop.Controllers.Fits.{own-Owns, mutate_client_secret-Fit}
use heliop.Controllers.Moves.{Scope, Writing, update-Moves, >>=-Moves, if-Moves}
use heliop.Controllers.Watches.{
  Event, Shows, Makes, of_resource, of_owner, of_watched, authelia_setup, Builder, IsBuilder,
}
use heliop.Controllers.Watches.Written.{is_secret, is_watched, owned-IsHeard}
use heliop.Writes.{Change, ClientFit, Reach, Reach-ours, here, next}
use heliop.Writes.Frames.{String-ne, Change-Fate, Reach-frame}

abbrev reference_to : String → String → OwnerReference
reference_to kind name = record { kind = kind; name = name }

abbrev owner_kind : Option OwnerReference → String
owner_kind none = ""
owner_kind (some r) = r.kind

module _ (c : Crypto) (cc : ClusterClient c.Source) (build : Builder cc.State)
    (watches : IsBuilder build) where
  -- The event has a Secret of the Authelia of the request.
  abbrev pub ShowsOwned : Event secret → Request → Type 0
  ShowsOwned event req =
      (x : Secret) × Shows x event
      × (x.meta.owner ≡ some (owner_reference authelia req.name))
      × (req.namespace ≡ x.meta.namespace)

  secret_is_not_resource : secret ≡ authelia → ⊥
  secret_is_not_resource e = String-ne "Secret" "Authelia" refl (ap kind_name e)

  Makes→ShowsOwned :
      (event : Event secret) (st : cc.State) (req : Request)
      → Makes (authelia_setup c cc) event st req
      → ShowsOwned event req
  Makes→ShowsOwned event st req (of_resource x e shown same) = absurd (secret_is_not_resource e)
  Makes→ShowsOwned event st req (of_owner x owner watched shown owned kind same) = (
    x,
    shown,
    owned
        ∙ ap some (ap (λ k. reference_to k owner.name) kind)
        ∙ ap (λ r. some (owner_reference authelia r.name)) (sym same),
    ap (λ r. r.namespace) same,
  )
  Makes→ShowsOwned event st req (of_watched x requests watched shown m) =
      absurd (not-mem-nil watched)

  -- Of a change of a Secret, the Authelia controller gets exactly the requests for the Authelias of
  -- which one is the controller of the old or of the new Secret.
  pub authelia_setup-secret_iff :
      (event : Event secret) (st : cc.State) (req : Request)
      → Mem req (build (authelia_setup c cc) secret event st) ↔ ∥ ShowsOwned event req ∥₁
  authelia_setup-secret_iff event st req = (
    λ m.
        ∥∥₁_elim (watches.only (authelia_setup c cc) secret event st req m) squash₁
          (λ made. ∣ Makes→ShowsOwned event st req made ∣₁),
    λ h. ∥∥₁_elim h squash₁ (λ (x, shown, owner, same).
        owned-IsHeard c cc build watches (authelia_setup c cc) secret x req
          (is_watched c cc is_secret) owner same event st shown),
  )

-- A run of the client controller for a client of which the status names the Secret already.
module _ (c : Crypto) (cc : ClusterClient c.Source) (laws : IsCluster cc) (sound : IsSound c)
    (client : AutheliaOauthClient) where
  abbrev secret_only : Kind → Option String
  secret_only secret = some (oauth_secret_name client)
  secret_only _ = none

  abbrev secret_scope : Scope
  secret_scope = record {
    namespace = client.namespace;
    names = secret_only;
    Fit = ClientFit c client;
  }

  abbrev SecretChange : cc.State → cc.State → Type 0
  SecretChange = Change laws.find client.namespace secret_only (ClientFit c client)

  reconcile_oauth_client-SecretChange :
      (client.status.secret_name == oauth_secret_name client) ≡ true
      → Moves (Writing c cc (alone cc laws) secret_scope) (reconcile_oauth_client c cc client)
  unfolding reconcile_oauth_client update_client_status
  reconcile_oauth_client-SecretChange named =
      let own = cc.own oauth_client client.namespace client.name in
      >>=-Moves c cc (alone cc laws) secret_scope _ _
        (update-Moves c cc (alone cc laws) secret_scope secret
          (blank_secret client.namespace (oauth_secret_name client)) (oauth_secret_name client)
          (mutate_client_secret c own client) refl refl
          (λ o s.
            mutate_client_secret-Fit c sound own client client.namespace (oauth_secret_name client)
              o s (own-Owns cc laws.owned oauth_client client.namespace client.name)))
        (λ _.
          >>=-Moves c cc (alone cc laws) secret_scope _ _
            (if-Moves c cc (alone cc laws) secret_scope
              (client.status.secret_name == oauth_secret_name client) _ _ (λ same w. here)
              (λ other. absurd (false≢true (sym other ∙ named))))
            (λ _ w. here))

  -- What is there was there, or it is owned by the client.
  Reach-owner :
      {st st' : cc.State} (ns n : String) (x : Secret)
      → Reach SecretChange st st'
      → laws.find secret ns n st' ≡ some x
      → (laws.find secret ns n st ≡ some x)
        ⊎ (x.meta.owner ≡ some (owner_reference oauth_client client.name))
  Reach-owner ns n x here found = inl found
  Reach-owner ns n x (next r s) found =
      elim (Change-Fate laws.find client.namespace secret_only (ClientFit c client) s secret ns n) [
        | inl same ↦ Reach-owner ns n x r (sym same ∙ found)
        | inr (new, _, _, fit, put) ↦
            let new_is_x : new ≡ x = ap (get_or x) (sym put ∙ found) in inr (rw new_is_x at fit).3
      ]

  secret_or_other :
      (k : Kind) (ns n : String)
      → ((k ≡ secret) × (ns ≡ client.namespace) × (n ≡ oauth_secret_name client))
        ⊎ ¬ ((secret_only k ≡ some n) × (ns ≡ client.namespace))
  secret_or_other secret ns n = elim (String-cases ns client.namespace) [
    | inl place ↦ elim (String-cases n (oauth_secret_name client)) [
      | inl this ↦ inl (refl, place, this)
      | inr differs ↦
          inr (λ (named, _).
            String-ne n (oauth_secret_name client) differs (sym (ap (get_or n) named)))
    ]
    | inr differs ↦ inr (λ (_, place). String-ne ns client.namespace differs place)
  ]
  secret_or_other config_map ns n = inr (λ (named, _). none-ne-some n named)
  secret_or_other service ns n = inr (λ (named, _). none-ne-some n named)
  secret_or_other deployment ns n = inr (λ (named, _). none-ne-some n named)
  secret_or_other claim ns n = inr (λ (named, _). none-ne-some n named)
  secret_or_other authelia ns n = inr (λ (named, _). none-ne-some n named)
  secret_or_other oauth_client ns n = inr (λ (named, _). none-ne-some n named)
  secret_or_other ingress ns n = inr (λ (named, _). none-ne-some n named)

  -- The change of the client's Secret between two states of the cluster.
  abbrev pub secret_change : cc.State → cc.State → Event secret
  secret_change st st' = record {
    old = laws.find secret client.namespace (oauth_secret_name client) st;
    new = laws.find secret client.namespace (oauth_secret_name client) st';
  }

  module _ (build : Builder cc.State) (watches : IsBuilder build) where
    unowned :
        (st st' : cc.State) (req : Request)
        → laws.find secret client.namespace (oauth_secret_name client) st ≡ none
        → Reach SecretChange st st'
        → ShowsOwned c cc build watches (secret_change st st') req
        → ⊥
    unowned st st' req deleted h (x, inl was, owner, _) =
        absurd (none-ne-some x (sym deleted ∙ was))
    unowned st st' req deleted h (x, inr is, owner, _) =
        elim (Reach-owner client.namespace (oauth_secret_name client) x h is) [
          | inl was ↦ absurd (none-ne-some x (sym deleted ∙ was))
          | inr by_client ↦
              String-ne "Authelia" "AutheliaOAuthClient" refl
                (ap owner_kind (sym owner ∙ by_client))
        ]

    -- Where the Secret of a client is gone while its status still names it: of a run of the client
    -- controller, whatever it ends in, each object is as before, or it is that Secret, and the change
    -- of the Secret makes no request of the Authelia controller, which renders the digest in it.
    pub reconcile_client-Unheard :
        (req : Request) (u : World c cc) (k : Kind) (ns n : String) (st : cc.State)
        (request : Request)
        → cc.get oauth_client req.namespace req.name u.0 ≡ ok client
        → (client.status.secret_name == oauth_secret_name client) ≡ true
        → laws.find secret client.namespace (oauth_secret_name client) u.0 ≡ none
        → (laws.find k ns n (reconcile_client c cc req u).1.0 ≡ laws.find k ns n u.0)
          ⊎ ((k ≡ secret)
              × (ns ≡ client.namespace)
              × (n ≡ oauth_secret_name client)
              × ¬ Mem request (
                  build
                    (authelia_setup c cc)
                    secret
                    (secret_change u.0 (reconcile_client c cc req u).1.0)
                    st))
    unfolding reconcile_client
    reconcile_client-Unheard req u k ns n st request got named deleted =
        let h : Writing c cc (alone cc laws) secret_scope u
            (reconcile_oauth_client c cc client u).1 =
          reconcile_oauth_client-SecretChange named u in
        let ours = Reach-ours (λ st st' no_one. no_one) h in
        let no_request : ¬ Mem request _ = λ m.
          ∥∥₁_elim ((authelia_setup-secret_iff c cc build watches _ st request).0 m) ⊥_prop
            (unowned u.0 _ request deleted ours) in
        rw got (elim (secret_or_other k ns n) [
          | inl (is, place, this) ↦ inr (is, place, this, no_request)
          | inr other ↦ inl (
              Reach-frame laws.find client.namespace secret_only (ClientFit c client) k ns n ours
                other)
        ])
