-- ===== src/Controllers/Watches/Written.antt =====
-- Secrets, ConfigMaps, Services and Deployments that the controllers of internal/controller write are
-- watched for the resource that they are written for. The data claim has no owner and is left out.
use mathlib.Core.List.{mem-cons_self, mem-cons_of_mem}
use heliop.Base.{String, Option, some, List, Mem, ◌≡◌, ◌⊎◌, refl, sym, ap, ◌∙◌, inl, inr}
use heliop.Base.Options.{get_or}
use heliop.Api.{Authelia, AutheliaOauthClient}
use heliop.Cluster.{
  Kind, secret, config_map, service, deployment, authelia, oauth_client, Obj, Key, key_of,
  owner_reference, ClusterClient,
}
use heliop.Cluster.Shared.{IsShared}
use heliop.OauthClients.{Request}
use heliop.Secrets.{Crypto, IsSound}
use heliop.Controllers.{Libraries, World, request_for}
use heliop.Controllers.Runs.{Call, run, run-Reach, RunsOr, absorbed}
use heliop.Controllers.Watches.{
  Event, Shows, owner_of, request_of_key, Setup, authelia_setup, client_setup, Builder, IsBuilder,
  of_owner,
}
use heliop.Writes.{
  authelia_name, client_name, AutheliaFit, ClientFit, Step, for_authelia, for_client, Joint, by_us,
  by_others, Reach, here, next,
}
use heliop.Writes.Frames.{Change-Fate}

-- The kinds of objects that the controllers write and that are not custom resources; the data claim
-- has no owner.
pub data IsOwnedKind : Kind → Type 0 where
  is_secret : IsOwnedKind secret
  is_config_map : IsOwnedKind config_map
  is_service : IsOwnedKind service
  is_deployment : IsOwnedKind deployment

pub is_watched :
    (c : Crypto) (cc : ClusterClient c.Source) {k : Kind}
    → IsOwnedKind k
    → Mem k (authelia_setup c cc).owned
is_watched c cc is_secret = mem-cons_of_mem _ (mem-cons_of_mem _ (mem-cons_of_mem _ mem-cons_self))
is_watched c cc is_config_map = mem-cons_of_mem _ (mem-cons_of_mem _ mem-cons_self)
is_watched c cc is_service = mem-cons_of_mem _ mem-cons_self
is_watched c cc is_deployment = mem-cons_self

-- The owner of what is written.
Authelia-owner :
    (a : Authelia) {k : Kind} (kind : IsOwnedKind k) (old : Option (Obj k)) (new : Obj k)
    → AutheliaFit a k old new
    → owner_of k new ≡ some (owner_reference authelia a.name)
Authelia-owner a is_secret old new (_, _, owned) = owned
Authelia-owner a is_config_map old new (_, _, owned) = owned
Authelia-owner a is_service old new (_, owned) = owned
Authelia-owner a is_deployment old new (_, _, _, owned) = owned

Client-owner :
    (c : Crypto) (client : AutheliaOauthClient) {k : Kind} (kind : IsOwnedKind k)
    (old : Option (Obj k)) (new : Obj k)
    → ClientFit c client k old new
    → (k ≡ secret) × (owner_of k new ≡ some (owner_reference oauth_client client.name))
Client-owner c client is_secret old new (_, _, _, owned) = (refl, owned)
Client-owner c client is_config_map old new never = absurd never
Client-owner c client is_service old new never = absurd never
Client-owner c client is_deployment old new never = absurd never

module _ (c : Crypto) (cc : ClusterClient c.Source) (build : Builder cc.State) where
  -- Each event with an object makes a request for a resource of a controller.
  abbrev pub IsHeard : Setup cc.State → Request → (k : Kind) → Obj k → Type 0
  IsHeard setup req k x =
      (event : Event k) (st : cc.State) → Shows x event → Mem req (build setup k event st)

  -- An object, under its name, is heard of by the controller of a resource in its namespace, of which
  -- the object's name is one for its kind.
  pub data IsWatched (k : Kind) (key : Key) (x : Obj k) : Type 0 where
    by_authelia :
        (a : Authelia)
        → a.namespace ≡ key.namespace
        → authelia_name a k ≡ some key.name
        → IsHeard (authelia_setup c cc) (request_for a) k x
        → IsWatched k key x
    by_client :
        (client : AutheliaOauthClient)
        → client.namespace ≡ key.namespace
        → client_name client k ≡ some key.name
        → IsHeard (client_setup c cc) (request_of_key oauth_client client) k x
        → IsWatched k key x

  module _ (watches : IsBuilder build) where
    -- The objects that a kind of resource owns are watched for it.
    pub owned-IsHeard :
        (setup : Setup cc.State) (k : Kind) (x : Obj k) (req : Request)
        → Mem k setup.owned
        → owner_of k x ≡ some (owner_reference setup.resource req.name)
        → req.namespace ≡ (key_of k x).namespace
        → IsHeard setup req k x
    owned-IsHeard setup k x req watched owner same event st shown =
        watches.enqueues setup k event st req (
          of_owner x _ watched shown owner refl
            (ap (λ ns. record { namespace = ns; name = req.name }) same))

    module _ {Rely : cc.State → cc.State → Type 0} (laws : IsShared cc Rely) where
      authelia-IsWatched :
          (a : Authelia) (k : Kind) (ns n : String) (x : Obj k) (old : Option (Obj k))
          → IsOwnedKind k
          → key_of k x ≡ record { namespace = ns; name = n }
          → ns ≡ a.namespace
          → authelia_name a k ≡ some n
          → AutheliaFit a k old x
          → IsWatched k (record { namespace = ns; name = n }) x
      authelia-IsWatched a k ns n x old kind key there owned fit = by_authelia a (sym there) owned (
          owned-IsHeard (authelia_setup c cc) k x (request_for a) (is_watched c cc kind)
            (Authelia-owner a kind old x fit) (sym there ∙ sym (ap (λ z. z.namespace) key)))

      client-IsWatched :
          (client : AutheliaOauthClient) (k : Kind) (ns n : String) (x : Obj k)
          (old : Option (Obj k))
          → IsOwnedKind k
          → key_of k x ≡ record { namespace = ns; name = n }
          → ns ≡ client.namespace
          → client_name client k ≡ some n
          → ClientFit c client k old x
          → IsWatched k (record { namespace = ns; name = n }) x
      client-IsWatched client k ns n x old kind key there owned fit =
          let (secret_kind, owner) = Client-owner c client kind old x fit in
          by_client client (sym there) owned (
            owned-IsHeard (client_setup c cc) k x (request_of_key oauth_client client)
              (rw secret_kind mem-cons_self) owner (sym there ∙ sym (ap (λ z. z.namespace) key)))

      Step-IsWatched :
          {st st' : cc.State} (k : Kind) (ns n : String) (x : Obj k)
          → IsOwnedKind k
          → key_of k x ≡ record { namespace = ns; name = n }
          → Step laws.find c st st'
          → laws.find k ns n st' ≡ some x
          → (laws.find k ns n st ≡ some x) ⊎ IsWatched k (record { namespace = ns; name = n }) x
      Step-IsWatched k ns n x kind key (for_authelia a h) found =
          elim (Change-Fate laws.find a.namespace (authelia_name a) (AutheliaFit a) h k ns n) [
            | inl same ↦ inl (sym same ∙ found)
            | inr (new, owned, there, fit, put) ↦
                let new_is_x : new ≡ x = ap (get_or x) (sym put ∙ found) in
                inr (authelia-IsWatched a k ns n x _ kind key there owned (rw new_is_x at fit))
          ]
      Step-IsWatched k ns n x kind key (for_client client h) found =
          elim (Change-Fate laws.find client.namespace (client_name client) (ClientFit c client) h k
            ns n) [
              | inl same ↦ inl (sym same ∙ found)
              | inr (new, owned, there, fit, put) ↦
                  let new_is_x : new ≡ x = ap (get_or x) (sym put ∙ found) in
                  inr (client-IsWatched client k ns n x _ kind key there owned (rw new_is_x at fit))
            ]

      -- What a step leaves in place of the object was there, or it is watched as well.
      abbrev pub LeavesWatched : (k : Kind) → String → String → Obj k → cc.State → cc.State → Type 0
      LeavesWatched k ns n x u v =
          laws.find k ns n v ≡ some x
          → (laws.find k ns n u ≡ some x) ⊎ IsWatched k (record { namespace = ns; name = n }) x

      Reach-IsWatched :
          (k : Kind) (ns n : String) (x : Obj k) (kind : IsOwnedKind k)
          (key : key_of k x ≡ record { namespace = ns; name = n }) {st st' : cc.State}
          → Reach (Joint (Step laws.find c) (LeavesWatched k ns n x)) st st'
          → LeavesWatched k ns n x st st'
      Reach-IsWatched k ns n x kind key here found = inl found
      Reach-IsWatched k ns n x kind key (next r (by_us s)) found =
          elim (Step-IsWatched k ns n x kind key s found) [
            | inl before ↦ Reach-IsWatched k ns n x kind key r before
            | inr watched ↦ inr watched
          ]
      Reach-IsWatched k ns n x kind key (next r (by_others leaves)) found = elim (leaves found) [
        | inl before ↦ Reach-IsWatched k ns n x kind key r before
        | inr watched ↦ inr watched
      ]

      -- After any runs of both controllers, in any order, whatever they ended in and whatever others did
      -- meanwhile, as long as each step of the others is a write that the specification allows to the
      -- controllers (further runs at the same time) or one that leaves in that place what was there or
      -- what is watched as well: a Secret, ConfigMap, Service or Deployment that is in the cluster under
      -- its name was there before, or it is one of an Authelia or of a client, in the namespace of that,
      -- of which each event, a deletion too, makes a request for that resource of the controller of its
      -- kind.
      pub run-IsWatched :
          (sound : IsSound c) (lib : Libraries) (calls : List Call) (w : World c cc)
          → (k : Kind) (ns n : String) (x : Obj k)
          → RunsOr c cc lib laws sound (LeavesWatched k ns n x)
          → IsOwnedKind k
          → key_of k x ≡ record { namespace = ns; name = n }
          → laws.find k ns n (run c cc lib calls w).0 ≡ some x
          → (laws.find k ns n w.0 ≡ some x) ⊎ IsWatched k (record { namespace = ns; name = n }) x
      run-IsWatched sound lib calls w k ns n x others kind key found =
          Reach-IsWatched k ns n x kind key
            (absorbed c cc lib laws sound (LeavesWatched k ns n x) _ _ others
              (run-Reach c cc lib laws sound calls w))
            found
