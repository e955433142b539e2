-- ===== src/Writes.antt =====
-- An abstract specification of what the two reconcilers of internal/controller write: a relation on
-- the states of the cluster, one write at a time, and its closure. Nothing is said of when or whether
-- a write is made.
pub mod Frames
pub mod Inputs
pub mod Invariants
use heliop.Base.{String, Bool, true, false, Option, none, some, List, ◌≡◌, ◌⊎◌, ◌==◌, contains}
use heliop.Base.Dict.{Dict, lookup}
use heliop.Api.{Authelia, AutheliaOauthClient}
use heliop.Kubernetes.{ObjectMeta, Secret}
use heliop.Cluster.{
  Kind, secret, config_map, service, deployment, claim, authelia, oauth_client, ingress, Obj, Key,
  SameObjects, Puts, owner_reference,
}
use heliop.Names.{config_map_name, data_pvc_name}
use heliop.OauthClients.{oauth_secret_name, client_id_key, client_id_of}
use heliop.OauthClients.Data.{IsClientData, client_keys}
use heliop.Resources.{build_config_map, build_service, build_deployment, build_data_pvc}
use heliop.Secrets.{Crypto, map_of, core_secret_name}
use heliop.Secrets.Once.{IsCompleted}

-- The data that a Secret holds, where there is one.
abbrev pub contents_of : Option Secret → Dict String
contents_of none = map_of none
contents_of (some x) = map_of x.contents

-- The names of the objects of an Authelia and of a client, in their namespace.
abbrev pub authelia_name : Authelia → Kind → Option String
authelia_name a secret = some (core_secret_name a)
authelia_name a config_map = some (config_map_name a)
authelia_name a service = some a.name
authelia_name a deployment = some a.name
authelia_name a claim = some (data_pvc_name a)
authelia_name a authelia = some a.name
authelia_name a oauth_client = none
authelia_name a ingress = none

abbrev pub client_name : AutheliaOauthClient → Kind → Option String
client_name client secret = some (oauth_secret_name client)
client_name client oauth_client = some client.name
client_name client _ = none

-- The controller of an object, by kind and name
abbrev pub IsOwnedBy : Kind → String → ObjectMeta → Type 0
IsOwnedBy k name meta = meta.owner ≡ some (owner_reference k name)

-- What may be written for an Authelia in place of an old object: a core Secret of the operator that is
-- completed; the ConfigMap of some configuration; the Service; the Deployment of some configuration,
-- beside its status; the data claim where there is none; a status. All but the claim are owned by the
-- Authelia.
abbrev pub AutheliaFit : Authelia → (k : Kind) → Option (Obj k) → Obj k → Type 0
AutheliaFit a secret old new =
    ((a.spec.deployment.existing_secret == "") ≡ true)
    × IsCompleted (contents_of old) (map_of new.contents)
    × IsOwnedBy authelia a.name new.meta
AutheliaFit a config_map old new =
    (rendered : String) × (new.contents ≡ (build_config_map a rendered).contents)
    × IsOwnedBy authelia a.name new.meta
AutheliaFit a service old new =
    (new ≡ record (build_service a) { meta = new.meta }) × IsOwnedBy authelia a.name new.meta
AutheliaFit a deployment old new =
    (oidc_enabled : Bool) × (checksum : String) × (new
      ≡ record (build_deployment a oidc_enabled checksum) {
        meta = new.meta;
        ready_replicas = new.ready_replicas;
      })
    × IsOwnedBy authelia a.name new.meta
AutheliaFit a claim old new = (old ≡ none) × (new ≡ build_data_pvc a)
AutheliaFit a authelia old new =
    (o : Authelia) × (old ≡ some o) × (new ≡ record o { status = new.status })
AutheliaFit a oauth_client old new = ⊥
AutheliaFit a ingress old new = ⊥

-- For a client: a Secret with the client ID and, for a confidential client, completed data, owned
-- by the client; or a status.
abbrev pub ClientFit : Crypto → AutheliaOauthClient → (k : Kind) → Option (Obj k) → Obj k → Type 0
ClientFit c client secret old new =
    (lookup client_id_key (map_of new.contents) ≡ some (client_id_of client))
    × ((client.spec.public ≡ true) ⊎ IsClientData c client (contents_of old) (map_of new.contents))
    × ((k : String)
        → contains client_keys k ≡ false
        → lookup k (map_of new.contents) ≡ lookup k (contents_of old))
    × IsOwnedBy oauth_client client.name new.meta
ClientFit c client oauth_client old new =
    (o : AutheliaOauthClient) × (old ≡ some o) × (new ≡ record o { status = new.status })
ClientFit c client _ old new = ⊥

module _ {State : Type 0} (find : (k : Kind) → String → String → State → Option (Obj k)) where
  -- One write, in a namespace, of an object of a name that is given for its kind, in place of one that
  -- it fits; or no write.
  pub data Change (namespace : String) (names : Kind → Option String)
      (Fit : (k : Kind) → Option (Obj k) → Obj k → Type 0) (st st' : State) : Type 0 where
    quiet : SameObjects find st st' → Change namespace names Fit st st'
    write :
        (k : Kind) (name : String) (new : Obj k)
        → names k ≡ some name
        → Fit k (find k namespace name st) new
        → Puts find k (record { namespace = namespace; name = name }) new st st'
        → Change namespace names Fit st st'

  abbrev pub AutheliaChange : Authelia → State → State → Type 0
  AutheliaChange a = Change a.namespace (authelia_name a) (AutheliaFit a)

  abbrev pub ClientChange : Crypto → AutheliaOauthClient → State → State → Type 0
  ClientChange c client = Change client.namespace (client_name client) (ClientFit c client)

  -- A write for some resource: what either reconciler may do next.
  pub data Step (c : Crypto) (st st' : State) : Type 0 where
    for_authelia : (a : Authelia) → AutheliaChange a st st' → Step c st st'
    for_client : (client : AutheliaOauthClient) → ClientChange c client st st' → Step c st st'

-- A step of ours, or one of the others.
pub data Joint {State : Type 0} (Ours Others : State → State → Type 0) (st st' : State)
    : Type 0 where
  by_us : Ours st st' → Joint Ours Others st st'
  by_others : Others st st' → Joint Ours Others st st'

-- Any number of steps.
pub data Reach {State : Type 0} (R : State → State → Type 0) (st : State) : State → Type 0 where
  here : Reach R st st
  next : {u v : State} → Reach R st u → R u v → Reach R st v

pub Reach-trans :
    {State : Type 0} {R : State → State → Type 0} {u v w : State}
    → Reach R u v
    → Reach R v w
    → Reach R u w
Reach-trans h here = h
Reach-trans h (next r s) = next (Reach-trans h r) s

pub Joint-map :
    {State : Type 0} {R S T : State → State → Type 0}
    → ((a b : State) → R a b → S a b)
    → (a b : State) → Joint R T a b
    → Joint S T a b
Joint-map f a b (by_us h) = by_us (f a b h)
Joint-map f a b (by_others h) = by_others h

-- With no one else, all steps are ours.
pub Reach-ours :
    {State : Type 0} {R Others : State → State → Type 0} {u v : State}
    → ((a b : State) → Others a b → ⊥)
    → Reach (Joint R Others) u v
    → Reach R u v
Reach-ours no_one here = here
Reach-ours no_one (next r (by_us h)) = next (Reach-ours no_one r) h
Reach-ours no_one (next {u = a} {v = b} r (by_others h)) = absurd (no_one a b h)

pub Reach-map :
    {State : Type 0} {R S : State → State → Type 0} {u v : State}
    → ((a b : State) → R a b → S a b)
    → Reach R u v
    → Reach S u v
Reach-map f here = here
Reach-map f (next {u} {v} r s) = next (Reach-map f r) (f u v s)
