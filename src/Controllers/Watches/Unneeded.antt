-- ===== src/Controllers/Watches/Unneeded.antt =====
-- What no request is made of is not read: the other direction of Inputs, on the lists of
-- internal/controller/authelia_controller.go.
use mathlib.Core.List.{mem-cons_self, mem-map_of_mem}
use heliop.Base.{
  String, Option, true, false, List, [], ◌++◌, Mem, ◌≡◌, ◌≢◌, sym, ◌∙◌, inl, inr, Bool-cases,
}
use heliop.Base.Dict.{Dict}
use heliop.Base.Options.{to_list}
use heliop.Base.Result.{Result, ok}
use heliop.Json.{Value}
use heliop.Api.{Authelia, AutheliaOauthClient}
use heliop.Cluster.{authelia, oauth_client, ingress, ClusterClient}
use heliop.Ingress.{Ingress, ingress_access_rules, has_rule_annotations}
use heliop.Ingress.Collect.{collect_ingress_rules}
use heliop.Ingress.Completeness.{ingress_access_rules_opt_in}
use heliop.Ingress.Ignored.{collect_ingress_rules-to_list}
use heliop.OauthClients.{client_targets, collect_clients}
use heliop.OauthClients.Routing.{client_targets-iff_routed}
use heliop.OauthClients.Untargeted.{collect_clients-to_list}
use heliop.Secrets.{Crypto}
use heliop.Controllers.{request_for, all_requests, map_ingress_to_authelia}
use heliop.Controllers.Watches.{Event, Shows, authelia_setup, Builder, IsBuilder, of_watched}

-- A run for the Authelia gets the same of two lists of clients: the same clients with their digests,
-- whatever the Secrets are.
abbrev pub SameClients : Authelia → List AutheliaOauthClient → List AutheliaOauthClient → Type 0
SameClients a before after =
    (get : String → String → Result (Dict String))
    → collect_clients get a before ≡ collect_clients get a after

-- A run gets the same of two lists of Ingresses: the same rules and domains.
abbrev pub SameRules : List Ingress → List Ingress → Type 0
SameRules before after =
    (parse : String → Option Value)
    → collect_ingress_rules parse (ok before) ≡ collect_ingress_rules parse (ok after)

module _ (c : Crypto) (cc : ClusterClient c.Source) (build : Builder cc.State)
    (laws : IsBuilder build) (a : Authelia) (st : cc.State) where
  untargeted :
      (x : AutheliaOauthClient) (event : Event oauth_client)
      → a.name ≢ ""
      → Shows x event
      → ¬ Mem (request_for a) (build (authelia_setup c cc) oauth_client event st)
      → client_targets x a ≡ false
  untargeted x event named shown quiet = elim (Bool-cases (client_targets x a)) [
    | inl targets ↦ absurd (
        quiet (
          laws.enqueues _ _ event st _
            (of_watched x _ mem-cons_self shown ((client_targets-iff_routed x a named).0 targets))))
    | inr other ↦ other
  ]

  requested :
      (x : Ingress) (instances : List Authelia)
      → has_rule_annotations x ≡ true
      → cc.list authelia st ≡ ok instances
      → Mem a instances
      → Mem (request_for a) (map_ingress_to_authelia c cc x st)
  unfolding map_ingress_to_authelia all_requests
  requested x instances opted_in all there = rw (opted_in, all) (mem-map_of_mem request_for there)

  ignored :
      (x : Ingress) (event : Event ingress) (instances : List Authelia)
      (parse : String → Option Value)
      → cc.list authelia st ≡ ok instances
      → Mem a instances
      → Shows x event
      → ¬ Mem (request_for a) (build (authelia_setup c cc) ingress event st)
      → ingress_access_rules parse x ≡ []
  ignored x event instances parse all there shown quiet =
      elim (Bool-cases (has_rule_annotations x)) [
        | inl opted_in ↦ absurd (
            quiet (
              laws.enqueues _ _ event st _ (
                of_watched x (map_ingress_to_authelia c cc) mem-cons_self shown
                  (requested x instances opted_in all there))))
        | inr other ↦ ingress_access_rules_opt_in parse x other
      ]

  -- Where the Authelia has a name: an event of a client that makes no request for it changes nothing
  -- that a run for it reads from the list of the clients, in which the old object is replaced by the
  -- new one, is added or removed.
  pub unrequested-SameClients :
      (xs ys : List AutheliaOauthClient) (event : Event oauth_client)
      → a.name ≢ ""
      → ¬ Mem (request_for a) (build (authelia_setup c cc) oauth_client event st)
      → SameClients a (xs ++ (to_list event.old ++ ys)) (xs ++ (to_list event.new ++ ys))
  unrequested-SameClients xs ys event named quiet get =
      collect_clients-to_list get a xs ys event.old
        (λ x is. untargeted x event named (inl is) quiet)
      ∙ sym (
          collect_clients-to_list get a xs ys event.new
            (λ x is. untargeted x event named (inr is) quiet))

  -- The same of an event of an Ingress and the list of the Ingresses, where the Authelia is in the
  -- list of all.
  pub unrequested-SameRules :
      (xs ys : List Ingress) (event : Event ingress) (instances : List Authelia)
      → cc.list authelia st ≡ ok instances
      → Mem a instances
      → ¬ Mem (request_for a) (build (authelia_setup c cc) ingress event st)
      → SameRules (xs ++ (to_list event.old ++ ys)) (xs ++ (to_list event.new ++ ys))
  unrequested-SameRules xs ys event instances all there quiet parse =
      collect_ingress_rules-to_list parse xs ys event.old
        (λ x is. ignored x event instances parse all there (inl is) quiet)
      ∙ sym (
          collect_ingress_rules-to_list parse xs ys event.new
            (λ x is. ignored x event instances parse all there (inr is) quiet))
