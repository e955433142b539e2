-- ===== src/Controllers/Events.antt =====
-- mapIngressToAuthelia of internal/controller/authelia_controller.go: which requests a change of an
-- Ingress makes.
use heliop.Base.{String, Option, List, [], map, ◌≡◌, ◌≢◌, refl, Bool-cases, inl, inr}
use heliop.Base.Result.{ok}
use heliop.Json.{Value}
use heliop.Api.{Authelia}
use heliop.Cluster.{authelia, ClusterClient}
use heliop.Ingress.{Ingress, has_rule_annotations, ingress_access_rules}
use heliop.Ingress.Completeness.{ingress_access_rules_opt_in}
use heliop.Secrets.{Crypto}
use heliop.Controllers.{request_for, all_requests, map_ingress_to_authelia}

module _ (c : Crypto) (cc : ClusterClient c.Source) where
  -- An Ingress that contributes a rule to the configuration, under any parser, is one of which each
  -- event makes a request for every Authelia of the cluster, in the list's order, where the list
  -- can be read.
  pub map_ingress_to_authelia_complete :
      (parse : String → Option Value) (ing : Ingress) (st : cc.State)
      → (instances : List Authelia) → ingress_access_rules parse ing ≢ []
      → cc.list authelia st ≡ ok instances
      → map_ingress_to_authelia c cc ing st ≡ map request_for instances
  unfolding map_ingress_to_authelia all_requests
  map_ingress_to_authelia_complete parse ing st instances contributes listed =
      elim (Bool-cases (has_rule_annotations ing)) [
        | inl opted_in ↦ rw (opted_in, listed) refl
        | inr not_opted_in ↦
            absurd (contributes (ingress_access_rules_opt_in parse ing not_opted_in))
      ]
