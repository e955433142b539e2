-- ===== src/Controllers/Handover.antt =====
-- The two controllers together: what the one writes for a client is what the other one renders.
pub mod Tests
use mathlib.Core.Bool.{false≢true}
use heliop.Base.Options.{get_or}
use heliop.Base.{String, true, false, some, List, Mem, ◌==◌, ◌≡◌, ◌⊎◌, refl, sym, ap, ◌∙◌, inl, inr}
use heliop.Base.Action.{read-ok}
use heliop.Base.Dict.{Dict}
use heliop.Base.Result.{Result, ok}
use heliop.Api.{Authelia, AutheliaOauthClient, AutheliaOauthClientStatus}
use heliop.Kubernetes.{Secret}
use heliop.Cluster.{secret, oauth_client, ClusterClient, IsCluster, IsCurrent}
use heliop.OauthClients.{
  Request, Listing, client_targets, client_secret_digest, collect_clients, digest_key,
  oauth_secret_name, secret_name_of,
}
use heliop.OauthClients.Data.{IsClientData}
use heliop.OauthClients.Ready.{rendered_client, collect_clients-Mem}
use heliop.Secrets.{Crypto, IsSound, bytes_at, map_of}
use heliop.Controllers.{World, ReconcileResult, secret_data, read_clients, reconcile_client}
use heliop.Controllers.ClientReconciled.{reconcile_client-Reconciled}

digest_read :
    (get : String → String → Result (Dict String)) (client : AutheliaOauthClient) (m : Dict String)
    (name : String)
    → secret_name_of client ≡ name
    → get client.namespace name ≡ ok m
    → client_secret_digest get client ≡ ok (bytes_at digest_key m)
unfolding client_secret_digest
digest_read get client m name same e = rw (same, e) refl

confidential_data :
    (c : Crypto) (client : AutheliaOauthClient) (m n : Dict String)
    → client.spec.public ≡ false
    → ((client.spec.public ≡ true) ⊎ IsClientData c client m n)
    → (bytes_at digest_key n == "") ≡ false
confidential_data c client m n p (inl public) = absurd (false≢true (sym p ∙ public))
confidential_data c client m n p (inr d) = d.digest_filled

module _ (c : Crypto) (cc : ClusterClient c.Source) (laws : IsCluster cc)
    (fresh : IsCurrent cc laws) (sound : IsSound c) where
  -- The Secret of each client, as `collectClients` reads it.
  abbrev read_secret : World c cc → String → String → Result (Dict String)
  read_secret w namespace name = secret_data (cc.get secret namespace name w.0)

  read_clients-collect_clients :
      (a : Authelia) (w : World c cc) (clients : List AutheliaOauthClient)
      → cc.list oauth_client w.0 ≡ ok clients
      → (read_clients c cc a w).0 ≡ collect_clients (read_secret w) a clients
  unfolding read_clients
  read_clients-collect_clients a w clients e = ap (λ r. r.0) (read-ok _ _ w refl clients e)

  -- Where reads are current: after a run of the client controller that ended without an error for a
  -- confidential client, the Secret that the cluster holds has a digest; and an Authelia that the
  -- client targets, once the reads of the API show the client, with the name of its Secret or none
  -- in its status, and that Secret, renders the client with that digest: it no longer waits.
  pub read_clients-reconcile_client :
      (req : Request) (client : AutheliaOauthClient) (r : ReconcileResult) (u v : World c cc)
      → (a : Authelia) (status : AutheliaOauthClientStatus) (clients : List AutheliaOauthClient)
        (l : Listing) (x : Secret)
      → cc.get oauth_client req.namespace req.name u.0 ≡ ok client
      → reconcile_client c cc req u ≡ (ok r, v)
      → client.spec.public ≡ false
      → client_targets (record client { status = status }) a ≡ true
      → secret_name_of (record client { status = status }) ≡ oauth_secret_name client
      → cc.list oauth_client v.0 ≡ ok clients
      → Mem (record client { status = status }) clients
      → laws.find secret client.namespace (oauth_secret_name client) v.0 ≡ some x
      → cc.get secret client.namespace (oauth_secret_name client) v.0 ≡ ok x
      → (read_clients c cc a v).0 ≡ ok l
      → ((bytes_at digest_key (map_of x.contents) == "") ≡ false)
        × Mem (rendered_client client (bytes_at digest_key (map_of x.contents))) l.clients
  read_clients-reconcile_client req client r u v a status clients l x got ran confidential targets
        named listed member found read collected =
      let run = (reconcile_client-Reconciled c cc laws fresh sound req client r u v got ran).1 in
      let same : run.held ≡ x = ap (get_or run.held) (sym run.there ∙ found) in
      let filled =
        rw same at
          (confidential_data c client _ (map_of run.held.contents) confidential run.fits.1) in
      let shown = record client { status = status } in
      (
        filled,
        collect_clients-Mem (read_secret v) a shown (bytes_at digest_key (map_of x.contents))
            targets confidential
            (digest_read (read_secret v) shown (map_of x.contents) (oauth_secret_name client) named
              (ap secret_data read))
            filled clients l member
            (sym (read_clients-collect_clients a v clients listed) ∙ collected),
      )
