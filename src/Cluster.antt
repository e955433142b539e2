-- ===== src/Cluster.antt =====
-- The API of the cluster, as the two controllers use it: sigs.k8s.io/controller-runtime's
-- `client.Client`, `controllerutil.CreateOrUpdate` and `controllerutil.SetControllerReference`, which
-- are not part of the repository. The record has the calls, `IsCluster` what they document. An object
-- has the fields that the program reads or writes; the server's defaults are in other ones.
pub mod Shared
use heliop.Base.{String, Option, none, some, List, ◌≡◌, ◌⊎◌}
use heliop.Base.Action.{Action}
use heliop.Base.Options.{get_or}
use heliop.Base.Result.{Result, ok, err, not_found, IsOk}
use heliop.Api.{Authelia, AutheliaOauthClient}
use heliop.Kubernetes.{
  OwnerReference, ObjectMeta, Secret, ConfigMap, Service, Deployment, PersistentVolumeClaim,
}
use heliop.Ingress.{Ingress}

pub data Kind : Type 0 where
  secret config_map service deployment claim authelia oauth_client ingress : Kind

abbrev pub Obj : Kind → Type 0
Obj secret = Secret
Obj config_map = ConfigMap
Obj service = Service
Obj deployment = Deployment
Obj claim = PersistentVolumeClaim
Obj authelia = Authelia
Obj oauth_client = AutheliaOauthClient
Obj ingress = Ingress

pub record Key : Type 0 where
  pub namespace : String
  pub name : String

abbrev meta_key : ObjectMeta → Key
meta_key meta = record { namespace = meta.namespace; name = meta.name }

abbrev pub key_of : (k : Kind) → Obj k → Key
key_of secret x = meta_key x.meta
key_of config_map x = meta_key x.meta
key_of service x = meta_key x.meta
key_of deployment x = meta_key x.meta
key_of claim x = meta_key x.meta
key_of authelia x = record { namespace = x.namespace; name = x.name }
key_of oauth_client x = record { namespace = x.namespace; name = x.name }
key_of ingress x = record { namespace = x.namespace; name = x.name }

-- What an update of the status takes from the object that it is given.
abbrev pub with_status : (k : Kind) → Obj k → Obj k → Obj k
with_status authelia given old = record old { status = given.status }
with_status oauth_client given old = record old { status = given.status }
with_status k given old = old

-- The name of a kind in the API
abbrev pub kind_name : Kind → String
kind_name secret = "Secret"
kind_name config_map = "ConfigMap"
kind_name service = "Service"
kind_name deployment = "Deployment"
kind_name claim = "PersistentVolumeClaim"
kind_name authelia = "Authelia"
kind_name oauth_client = "AutheliaOAuthClient"
kind_name ingress = "Ingress"

abbrev pub owner_reference : Kind → String → OwnerReference
owner_reference k name = record { kind = kind_name k; name = name }

-- The calls, over an unknown state of the cluster and a source of randomness for the mutations. A read
-- may fail in any way, and a call that fails may or may not have written.
pub record ClusterClient (Source : Type 0) : Type 1 where
  pub State : Type 0
  -- `Get`, by namespace and name
  pub get : (k : Kind) → String → String → State → Result (Obj k)
  pub list : (k : Kind) → State → Result (List (Obj k))
  pub create : (k : Kind) → Obj k → Action State (Unit {0})
  -- `CreateOrUpdate`, from an object of which the key is used, and a mutation
  pub create_or_update :
      (k : Kind)
      → Obj k
      → (Obj k → Source → Result (Obj k × Source))
      → Action (State × Source) (Obj k)
  -- `Status().Update`
  pub update_status : (k : Kind) → Obj k → Action State (Unit {0})
  -- `SetControllerReference`: the owner's kind, namespace and name, and the metadata to write to
  pub own : Kind → String → String → ObjectMeta → Result ObjectMeta

module _ {State : Type 0} (find : (k : Kind) → String → String → State → Option (Obj k)) where
  -- Two states hold the same objects.
  abbrev pub SameObjects : State → State → Type 0
  SameObjects st st' =
      (k : Kind) (namespace name : String) → find k namespace name st' ≡ find k namespace name st

  -- One object is written, and no other one changes.
  pub record Puts (k : Kind) (key : Key) (x : Obj k) (st st' : State) : Type 0 where
    pub here : find k key.namespace key.name st' ≡ some x
    pub elsewhere :
        (j : Kind) (namespace name : String)
        → ¬ ((j ≡ k) × (namespace ≡ key.namespace) × (name ≡ key.name))
        → find j namespace name st' ≡ find j namespace name st

  -- What a mutation starts from: the object of the cluster, or the one that is given.
  abbrev pub current : (k : Kind) → Obj k → State → Obj k
  current k x st = get_or x (find k (key_of k x).namespace (key_of k x).name st)

  -- An update of an object by a mutation.
  pub record Updates {Source : Type 0} (k : Kind) (x : Obj k)
      (mutate : Obj k → Source → Result (Obj k × Source)) (st : State) (s : Source) (y : Obj k)
      (st' : State) (t : Source) : Type 0 where
    pub mutated : mutate (current k x st) s ≡ ok (y, t)
    pub written : Puts k (key_of k x) y st st'

  -- A creation: there was no such object.
  pub record Creates (k : Kind) (x : Obj k) (st st' : State) : Type 0 where
    pub absent : find k (key_of k x).namespace (key_of k x).name st ≡ none
    pub written : Puts k (key_of k x) x st st'

  -- An update of the status: the rest of the object stays.
  pub record UpdatesStatus (k : Kind) (x : Obj k) (st st' : State) : Type 0 where
    pub old : Obj k
    pub found : find k (key_of k x).namespace (key_of k x).name st ≡ some old
    pub written : Puts k (key_of k x) (with_status k x old) st st'

-- What the calls document. `find` is what the cluster holds; what a client reads may be older. A
-- write has been applied to what the cluster held, as it checks the version, or it has not; a creation
-- and an update of the status that succeed have been.
pub record IsCluster {Source : Type 0} (cc : ClusterClient Source) : Type 0 where
  pub find : (k : Kind) → String → String → cc.State → Option (Obj k)
  pub got :
      (k : Kind) (namespace name : String) (x : Obj k) (st : cc.State)
      → cc.get k namespace name st ≡ ok x
      → key_of k x ≡ record { namespace = namespace; name = name }
  pub created_ok :
      (k : Kind) (x : Obj k) (st st' : cc.State)
      → cc.create k x st ≡ (ok tt, st')
      → Creates find k x st st'
  pub created :
      (k : Kind) (x : Obj k) (st : cc.State)
      → SameObjects find st (cc.create k x st).1 ⊎ Creates find k x st (cc.create k x st).1
  pub updated :
      (k : Kind) (x : Obj k) (mutate : Obj k → Source → Result (Obj k × Source))
      → (st : cc.State) (s : Source)
      → SameObjects find st (cc.create_or_update k x mutate (st, s)).1.0
        ⊎ ((y : Obj k) × (t : Source) × Updates find k x mutate st s y
              (cc.create_or_update k x mutate (st, s)).1.0
              t)
  pub updated_status_ok :
      (k : Kind) (x : Obj k) (st st' : cc.State)
      → cc.update_status k x st ≡ (ok tt, st')
      → UpdatesStatus find k x st st'
  pub updated_status :
      (k : Kind) (x : Obj k) (st : cc.State)
      → SameObjects find st (cc.update_status k x st).1
        ⊎ UpdatesStatus find k x st (cc.update_status k x st).1
  pub owned :
      (k : Kind) (namespace name : String) (meta meta' : ObjectMeta)
      → cc.own k namespace name meta ≡ ok meta'
      → meta' ≡ record meta { owner = some (owner_reference k name) }

-- The reads of `CreateOrUpdate` are current. It writes nothing where the mutation changes nothing of
-- what it has read, so that after an old read it may succeed and leave another object in place.
pub record IsCurrent {Source : Type 0} (cc : ClusterClient Source) (laws : IsCluster cc)
    : Type 0 where
  pub updated_ok :
      (k : Kind) (x y : Obj k) (mutate : Obj k → Source → Result (Obj k × Source))
      → (st st' : cc.State) (s t : Source)
      → cc.create_or_update k x mutate (st, s) ≡ (ok y, (st', t))
      → Updates laws.find k x mutate st s y st' t

-- A cluster that is up: a read that is current finds what is there and no more; a creation of an
-- object that is not there, an update with a mutation that gives an object and an update of the status
-- of an object that is there succeed; the owner can be set.
pub record IsUp {Source : Type 0} (cc : ClusterClient Source) (laws : IsCluster cc) : Type 0 where
  pub gets :
      (k : Kind) (namespace name : String) (x : Obj k) (st : cc.State)
      → laws.find k namespace name st ≡ some x
      → IsOk (cc.get k namespace name st)
  pub misses :
      (k : Kind) (namespace name : String) (st : cc.State)
      → laws.find k namespace name st ≡ none
      → cc.get k namespace name st ≡ err not_found
  pub creates :
      (k : Kind) (x : Obj k) (st : cc.State)
      → laws.find k (key_of k x).namespace (key_of k x).name st ≡ none
      → (cc.create k x st).0 ≡ ok tt
  pub updates :
      (k : Kind) (x : Obj k) (mutate : Obj k → Source → Result (Obj k × Source))
      → (st : cc.State) (s : Source) → IsOk (mutate (current laws.find k x st) s)
      → IsOk (cc.create_or_update k x mutate (st, s)).0
  pub updates_status :
      (k : Kind) (x o : Obj k) (st : cc.State)
      → laws.find k (key_of k x).namespace (key_of k x).name st ≡ some o
      → (cc.update_status k x st).0 ≡ ok tt
  pub owns :
      (k : Kind) (namespace name : String) (meta : ObjectMeta) → IsOk (cc.own k namespace name meta)
