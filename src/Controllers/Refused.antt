-- ===== src/Controllers/Refused.antt =====
-- Errors before the first write of `Reconcile` of internal/controller/authelia_controller.go.
use heliop.Base.{String, List, ◌≡◌, refl, ap, ◌∙◌}
use heliop.Base.Action.{read-err, read-ok}
use heliop.Base.Result.{Error, ok, err}
use heliop.Json.{Object}
use heliop.Api.{Authelia}
use heliop.Cluster.{authelia, ingress, ClusterClient}
use heliop.Ingress.Collect.{collect_ingress_rules}
use heliop.OauthClients.{Request, Listing}
use heliop.Render.{render_config}
use heliop.Secrets.{Crypto}
use heliop.Controllers.{
  Libraries, World, read_clients, reconcile_authelia, found_or_done, reconcile,
}
use heliop.Controllers.Reads.{read_clients-stays}

module _ (c : Crypto) (cc : ClusterClient c.Source) (lib : Libraries) (a : Authelia) where
  -- The first read or computation that fails.
  pub data Refusal (w : World c cc) (e : Error) : Type 0 where
    reading_clients : (read_clients c cc a w).0 ≡ err e → Refusal w e
    collecting_rules :
        (l : Listing)
        → (read_clients c cc a w).0 ≡ ok l
        → collect_ingress_rules lib.parse (cc.list ingress w.0) ≡ err e
        → Refusal w e
    rendering :
        (l : Listing) (rules : List Object) (domains : List String)
        → (read_clients c cc a w).0 ≡ ok l
        → collect_ingress_rules lib.parse (cc.list ingress w.0) ≡ ok (rules, domains)
        → render_config lib.parse lib.marshal a.spec.settings l.clients rules a.spec.hostname
          ≡ err e
        → Refusal w e

  reconcile_authelia-Refusal :
      (w : World c cc) (e : Error) → Refusal w e → reconcile_authelia c cc lib a w ≡ (err e, w)
  unfolding reconcile_authelia
  reconcile_authelia-Refusal w e (reading_clients h) =
      read-err _ _ w (read_clients-stays c cc a w) e h
  reconcile_authelia-Refusal w e (collecting_rules l h g) =
      read-ok _ _ w (read_clients-stays c cc a w) l h ∙ read-err _ _ w refl e g
  reconcile_authelia-Refusal w e (rendering l rules domains h g f) =
      read-ok _ _ w (read_clients-stays c cc a w) l h
      ∙ read-ok _ _ w refl (rules, domains) g
      ∙ read-err _ _ w refl e f

  -- An Authelia is found, and the first of the reads and computations that fails (the clients with
  -- their digests, the rules of the Ingresses, the configuration) fails with some error: then the
  -- run returns that error, and neither the cluster nor the random source has changed.
  pub reconcile-Refusal :
      (req : Request) (w : World c cc) (e : Error)
      → cc.get authelia req.namespace req.name w.0 ≡ ok a
      → Refusal w e
      → reconcile c cc lib req w ≡ (err e, w)
  unfolding reconcile
  reconcile-Refusal req w e got h =
      ap (λ r. found_or_done (reconcile_authelia c cc lib) r w) got
      ∙ reconcile_authelia-Refusal w e h
