-- ===== src/OauthClients/Routing.antt =====
-- clientTargets against mapClientToAuthelia of internal/controller/authelia_controller.go.
use mathlib.Core.List.{mem-cons, mem-cons_self, not-mem-nil}
use mathlib.Core.Logic.Or
use mathlib.Core.Bool.{Bool-set}
use heliop.Base.{true, false, Mem, ◌≡◌, ◌≢◌, ◌↔◌, ap, arith, eq_iff, ◌==◌, Bool-cases, inl, inr}
use heliop.Api.{Authelia, AutheliaOauthClient}
use heliop.OauthClients.{Request, reference_namespace, client_targets, map_client_to_authelia}

abbrev pub request_of : Authelia → Request
request_of a = record { namespace = a.namespace; name = a.name }

targets→Mem :
    (client : AutheliaOauthClient) (a : Authelia)
    → a.name ≢ ""
    → client_targets client a ≡ true
    → Mem (request_of a) (map_client_to_authelia client)
unfolding client_targets map_client_to_authelia
targets→Mem client a named h =
    let same_name = (eq_iff client.spec.authelia_ref.name a.name).0 (ground arith) in
    let same_namespace = (eq_iff (reference_namespace client) a.namespace).0 (ground arith) in
    let not_empty : (client.spec.authelia_ref.name == "") ≡ false =
      ground (arith, eq_iff client.spec.authelia_ref.name "") in
    rw (not_empty, same_name, same_namespace) mem-cons_self

Mem→targets :
    (client : AutheliaOauthClient) (a : Authelia)
    → Mem (request_of a) (map_client_to_authelia client)
    → client_targets client a ≡ true
unfolding client_targets map_client_to_authelia
Mem→targets client a m = elim (Bool-cases (client.spec.authelia_ref.name == "")) [
  | inl e ↦ absurd (not-mem-nil (rw e at m))
  | inr e ↦
      Or.elim (Bool-set _ _) (mem-cons.0 (rw e at m))
        (λ k.
          let same_name = ap (λ r. r.name) k in
          let same_namespace = ap (λ r. r.namespace) k in
          ground (
            arith,
            eq_iff client.spec.authelia_ref.name a.name,
            eq_iff (reference_namespace client) a.namespace,
          ))
        (λ n. absurd (not-mem-nil n))
]

-- A client counts for exactly the Authelia to which its events are routed, where that has a name:
-- `collectClients` takes the client for the Authelia if and only if a change of the client enqueues it.
pub client_targets-iff_routed :
    (client : AutheliaOauthClient) (a : Authelia)
    → a.name ≢ ""
    → (client_targets client a ≡ true) ↔ Mem (request_of a) (map_client_to_authelia client)
client_targets-iff_routed client a named = (targets→Mem client a named, Mem→targets client a)
