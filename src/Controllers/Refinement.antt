-- ===== src/Controllers/Refinement.antt =====
-- Both reconcilers of internal/controller write only what `Writes` allows, whatever they end in.
use heliop.Base.{◌≡◌, refl}
use heliop.Base.Action.{Action}
use heliop.Base.Result.{
  Result, ok, err, panic, parsing_additional_config, marshalling_config, generating, api, not_found,
}
use heliop.Cluster.{Kind, authelia, oauth_client, Obj, key_of, ClusterClient}
use heliop.Cluster.Shared.{IsShared}
use heliop.OauthClients.{Request}
use heliop.Secrets.{Crypto, IsSound}
use heliop.Controllers.{
  Libraries, ReconcileResult, found_or_done, World, reconcile_authelia, reconcile,
  reconcile_oauth_client, reconcile_client,
}
use heliop.Writes.{AutheliaChange, ClientChange, Joint, Reach}
use heliop.Controllers.Moves.Authelias.{reconcile_authelia-Moves}
use heliop.Controllers.Moves.Clients.{reconcile_oauth_client-Moves}

module _ (c : Crypto) (cc : ClusterClient c.Source) {Rely : cc.State → cc.State → Type 0}
    (laws : IsShared cc Rely) (sound : IsSound c) where
  -- What a run for a request does to the objects: nothing, or it writes for the resource of that
  -- kind, namespace and name.
  pub data Outcome (k : Kind) (req : Request) (R : Obj k → cc.State → cc.State → Type 0)
      (st st' : cc.State) : Type 0 where
    nothing : st' ≡ st → Outcome k req R st st'
    for_object :
        (x : Obj k)
        → cc.get k req.namespace req.name st ≡ ok x
        → key_of k x ≡ record { namespace = req.namespace; name = req.name }
        → Reach (R x) st st'
        → Outcome k req R st st'

  found_or_done-Outcome :
      (k : Kind) (req : Request) (R : Obj k → cc.State → cc.State → Type 0)
      → (f : Obj k → Action (World c cc) ReconcileResult)
      → ((x : Obj k) (w : World c cc) → Reach (R x) w.0 (f x w).1.0)
      → (r : Result (Obj k)) (w : World c cc) → cc.get k req.namespace req.name w.0 ≡ r
      → Outcome k req R w.0 (found_or_done f r w).1.0
  found_or_done-Outcome k req R f h (ok x) w e =
      for_object x e (laws.got k req.namespace req.name x w.0 e) (h x w)
  found_or_done-Outcome k req R f h (err parsing_additional_config) w e = nothing refl
  found_or_done-Outcome k req R f h (err marshalling_config) w e = nothing refl
  found_or_done-Outcome k req R f h (err generating) w e = nothing refl
  found_or_done-Outcome k req R f h (err api) w e = nothing refl
  found_or_done-Outcome k req R f h (err not_found) w e = nothing refl
  found_or_done-Outcome k req R f h panic w e = nothing refl

  -- Whatever `Reconcile` of the Authelia controller ends in, an error of some call included, and whatever
  -- others write meanwhile, it has changed nothing, or it read an Authelia of the requested namespace and
  -- name, and each step of the cluster is one of the others or a write that the specification allows for
  -- that Authelia.
  pub reconcile-Outcome :
      (lib : Libraries) (req : Request) (w : World c cc)
      → Outcome authelia req
          (λ a. Joint (AutheliaChange laws.find a) Rely)
          w.0
          (reconcile c cc lib req w).1.0
  unfolding reconcile
  reconcile-Outcome lib req w =
      found_or_done-Outcome authelia req (λ a. Joint (AutheliaChange laws.find a) Rely)
        (reconcile_authelia c cc lib) (λ a. reconcile_authelia-Moves c cc laws sound a lib) _ w refl

  -- Whatever `Reconcile` of the client controller ends in, an error of some call included, and whatever
  -- others write meanwhile, it has changed nothing, or it read a client of the requested namespace and
  -- name, and each step of the cluster is one of the others or a write that the specification allows for
  -- that client.
  pub reconcile_client-Outcome :
      (req : Request) (w : World c cc)
      → Outcome oauth_client req
          (λ x. Joint (ClientChange laws.find c x) Rely)
          w.0
          (reconcile_client c cc req w).1.0
  unfolding reconcile_client
  reconcile_client-Outcome req w =
      found_or_done-Outcome oauth_client req (λ x. Joint (ClientChange laws.find c x) Rely)
        (reconcile_oauth_client c cc) (reconcile_oauth_client-Moves c cc laws sound) _ w refl
