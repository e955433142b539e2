-- ===== src/Controllers/Watches.antt =====
-- The SetupWithManager methods of internal/controller/authelia_controller.go and of
-- autheliaoauthclient_controller.go: of which objects an event makes a request of which controller.
-- The builder of sigs.k8s.io/controller-runtime, which is not part of the repository, is a parameter.
mod Example
pub mod Inputs
pub mod Queue
pub mod Unneeded
pub mod Unrouted
pub mod Written
mod Tests
use heliop.Base.{String, Option, none, some, List, [], ◌∷◌, Mem, ◌≡◌, ◌⊎◌}
use heliop.Kubernetes.{ObjectMeta, OwnerReference}
use heliop.Cluster.{
  Kind, secret, config_map, service, deployment, claim, authelia, oauth_client, ingress, Obj,
  key_of, kind_name, ClusterClient,
}
use heliop.OauthClients.{Request, map_client_to_authelia}
use heliop.Secrets.{Crypto}
use heliop.Controllers.{map_ingress_to_authelia}

-- A change of an object, with what it was and what it is: a creation has no old object, a deletion no
-- new one.
pub record Event (k : Kind) : Type 0 where
  pub old : Option (Obj k)
  pub new : Option (Obj k)

-- The event has the object, as the old one or as the new one.
abbrev pub Shows : {k : Kind} → Obj k → Event k → Type 0
Shows x event = (event.old ≡ some x) ⊎ (event.new ≡ some x)

-- What is handed to the builder: the kind of `For`, the kinds of `Owns` and the functions of
-- `Watches`, by kind, and the name.
pub record Setup (State : Type 0) : Type 0 where
  pub resource : Kind
  pub owned : List Kind
  pub watched : (k : Kind) → List (Obj k → State → List Request)
  pub name : String

module _ (c : Crypto) (cc : ClusterClient c.Source) where
  abbrev authelia_watched : (k : Kind) → List (Obj k → cc.State → List Request)
  authelia_watched oauth_client = (λ x _. map_client_to_authelia x) ∷ []
  authelia_watched ingress = map_ingress_to_authelia c cc ∷ []
  authelia_watched _ = []

  -- `AutheliaReconciler.SetupWithManager`
  abbrev pub authelia_setup : Setup cc.State
  authelia_setup = record {
    resource = authelia;
    owned = deployment ∷ service ∷ config_map ∷ secret ∷ [];
    watched = authelia_watched;
    name = "authelia";
  }

  -- `AutheliaOAuthClientReconciler.SetupWithManager`
  abbrev pub client_setup : Setup cc.State
  client_setup = record {
    resource = oauth_client;
    owned = secret ∷ [];
    watched = λ k. [];
    name = "autheliaoauthclient";
  }

abbrev pub request_of_key : (k : Kind) → Obj k → Request
request_of_key k x = record { namespace = (key_of k x).namespace; name = (key_of k x).name }

-- The controller of an object; custom resources and Ingresses have none here.
abbrev pub owner_of : (k : Kind) → Obj k → Option OwnerReference
owner_of secret x = x.meta.owner
owner_of config_map x = x.meta.owner
owner_of service x = x.meta.owner
owner_of deployment x = x.meta.owner
owner_of claim x = x.meta.owner
owner_of authelia x = none
owner_of oauth_client x = none
owner_of ingress x = none

-- Why an event makes a request of a controller, as the handlers document it: the object is the
-- controller's resource (`EnqueueRequestForObject`), it has such a resource as its controller
-- (`EnqueueRequestForOwner`, in the object's namespace), or a function that is watched with gives the
-- request for it (`EnqueueRequestsFromMapFunc`); of an update, for the old object and for the new one.
pub data Makes {State : Type 0} (setup : Setup State) {k : Kind} (event : Event k) (st : State)
    (req : Request) : Type 0 where
  of_resource :
      (x : Obj k)
      → k ≡ setup.resource
      → Shows x event
      → req ≡ request_of_key k x
      → Makes setup event st req
  of_owner :
      (x : Obj k) (owner : OwnerReference)
      → Mem k setup.owned
      → Shows x event
      → owner_of k x ≡ some owner
      → owner.kind ≡ kind_name setup.resource
      → req ≡ record { namespace = (key_of k x).namespace; name = owner.name }
      → Makes setup event st req
  of_watched :
      (x : Obj k) (requests : Obj k → State → List Request)
      → Mem requests (setup.watched k)
      → Shows x event
      → Mem req (requests x st)
      → Makes setup event st req

-- The builder: the requests that a controller gets of an event.
abbrev pub Builder : Type 0 → Type 0
Builder State = Setup State → (k : Kind) → Event k → State → List Request

-- What it documents: the requests are those, and no other ones.
pub record IsBuilder {State : Type 0} (build : Builder State) : Type 0 where
  pub enqueues :
      (setup : Setup State) (k : Kind) (event : Event k) (st : State) (req : Request)
      → Makes setup event st req
      → Mem req (build setup k event st)
  pub only :
      (setup : Setup State) (k : Kind) (event : Event k) (st : State) (req : Request)
      → Mem req (build setup k event st)
      → ∥ Makes setup event st req ∥₁
