-- ===== src/Controllers/Watches/Inputs.antt =====
-- Which inputs of a run for an Authelia its controller watches: the Authelia, the clients that target it
-- and the Ingresses that contribute rules. The Secrets of clients, which a run reads too, are left to
-- Controllers/Watches/Unrouted.
use mathlib.Core.List.{mem-cons_self, mem-map_of_mem}
use heliop.Base.{String, Option, true, List, [], Mem, ◌≡◌, ◌≢◌, refl, sym}
use heliop.Base.Result.{ok}
use heliop.Json.{Value}
use heliop.Api.{Authelia}
use heliop.Cluster.{
  Kind, secret, config_map, service, deployment, claim, authelia, oauth_client, ingress, Obj,
  ClusterClient,
}
use heliop.Ingress.{ingress_access_rules}
use heliop.OauthClients.{client_targets}
use heliop.OauthClients.Routing.{client_targets-iff_routed}
use heliop.Secrets.{Crypto}
use heliop.Controllers.{request_for, map_ingress_to_authelia}
use heliop.Controllers.Events.{map_ingress_to_authelia_complete}
use heliop.Controllers.Watches.{
  Event, Shows, authelia_setup, Builder, IsBuilder, of_resource, of_watched,
}

module _ (c : Crypto) (cc : ClusterClient c.Source) (parse : String → Option Value) where
  -- What a run for an Authelia reads beside the objects that it owns: the Authelia itself, a client
  -- that targets it, and an Ingress that contributes a rule, where the Authelia is in the list of all.
  abbrev pub IsInput : Authelia → cc.State → (k : Kind) → Obj k → Type 0
  IsInput a st authelia x = request_for x ≡ request_for a
  IsInput a st oauth_client x = client_targets x a ≡ true
  IsInput a st ingress x =
      (ingress_access_rules parse x ≢ [])
      × ((instances : List Authelia) × (cc.list authelia st ≡ ok instances) × Mem a instances)
  IsInput a st _ x = ⊥

  module _ (build : Builder cc.State) (laws : IsBuilder build) where
    -- The Authelia controller gets a request for an Authelia that has a name of each event of which
    -- the old or the new object is the Authelia itself, a client that targets it, or an Ingress
    -- that contributes a rule under some parser while the list of Authelias can be read and has it.
    pub authelia_setup-IsInput :
        (a : Authelia) (st : cc.State) (k : Kind) (x : Obj k) (event : Event k)
        → a.name ≢ ""
        → Shows x event
        → IsInput a st k x
        → Mem (request_for a) (build (authelia_setup c cc) k event st)
    authelia_setup-IsInput a st authelia x event named shown same =
        laws.enqueues _ _ event st _ (of_resource x refl shown (sym same))
    authelia_setup-IsInput a st oauth_client x event named shown targets =
        laws.enqueues _ _ event st _
          (of_watched x _ mem-cons_self shown ((client_targets-iff_routed x a named).0 targets))
    authelia_setup-IsInput a st ingress x event named shown
          (contributes, (instances, listed, there)) =
        laws.enqueues _ _ event st _ (
          of_watched x (map_ingress_to_authelia c cc) mem-cons_self shown (
            rw (map_ingress_to_authelia_complete c cc parse x st instances contributes listed)
              (mem-map_of_mem request_for there)))
    authelia_setup-IsInput a st secret x event named shown never = absurd never
    authelia_setup-IsInput a st config_map x event named shown never = absurd never
    authelia_setup-IsInput a st service x event named shown never = absurd never
    authelia_setup-IsInput a st deployment x event named shown never = absurd never
    authelia_setup-IsInput a st claim x event named shown never = absurd never
