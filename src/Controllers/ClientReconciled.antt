-- ===== src/Controllers/ClientReconciled.antt =====
-- What the cluster holds after a run of the client controller that succeeds, and when it does.
use mathlib.Core.Path.{subst}
use heliop.Base.{true, some, ◌==◌, ◌≡◌, ◌⊎◌, refl, ap, ◌∙◌, inl, inr}
use heliop.Base.Action.{>>=-ok, if-ok}
use heliop.Base.Options.{get_or}
use heliop.Base.Result.{ok, Ensures-eq}
use heliop.Api.{AutheliaOauthClient}
use heliop.Kubernetes.{Secret}
use heliop.Cluster.{secret, oauth_client, ClusterClient, IsCluster, IsCurrent}
use heliop.Mutations.{blank_secret}
use heliop.OauthClients.{Request, mutate_client_secret, oauth_secret_name}
use heliop.Secrets.{Crypto, IsSound}
use heliop.Controllers.{
  World, ReconcileResult, done, found_or_done, update_client_status, reconcile_oauth_client,
  reconcile_client,
}
use heliop.Controllers.Fits.{own-Owns, mutate_client_secret-Fit}
use heliop.Controllers.Success.{Elsewhere, Puts-Elsewhere, unmoved, status-ok}
use heliop.Writes.{ClientFit}

module _ (c : Crypto) (cc : ClusterClient c.Source) (laws : IsCluster cc)
    (client : AutheliaOauthClient) where
  abbrev pub IsReported : cc.State → Type 0
  IsReported st =
      ((client.status.secret_name == oauth_secret_name client) ≡ true)
      ⊎ ((o : AutheliaOauthClient) × (laws.find oauth_client client.namespace client.name st
            ≡ some (record o { status = record { secret_name = oauth_secret_name client } })))

  -- A run from one state to another. Its Secret fits what was there, and its name is reported.
  pub record ClientReconciled (u v : cc.State) : Type 0 where
    pub held : Secret
    pub fits :
        ClientFit c client secret
          (laws.find secret client.namespace (oauth_secret_name client) u)
          held
    pub there : laws.find secret client.namespace (oauth_secret_name client) v ≡ some held
    pub reported : IsReported v

  update_client_status-ok :
      (u v : World c cc)
      → update_client_status c cc client u ≡ (ok tt, v)
      → Elsewhere c cc laws oauth_client u v × IsReported v.0
  unfolding update_client_status
  update_client_status-ok u v e =
      elim (if-ok (client.status.secret_name == oauth_secret_name client) _ _ u (ok tt, v) e) [
        | inl (same, ran) ↦ (unmoved c cc laws oauth_client u v (ap (λ p. p.1) ran), inl same)
        | inr (_, ran) ↦
            let h = status-ok c cc laws oauth_client _ u v ran in
            (Puts-Elsewhere c cc laws u v h.written, inr (h.old, h.written.here))
      ]

  reconcile_oauth_client-Reconciled :
      (fresh : IsCurrent cc laws) (sound : IsSound c) (r : ReconcileResult) (u v : World c cc)
      → reconcile_oauth_client c cc client u ≡ (ok r, v)
      → (r ≡ done) × ClientReconciled u.0 v.0
  unfolding reconcile_oauth_client
  reconcile_oauth_client-Reconciled fresh sound r u v e =
      let own = cc.own oauth_client client.namespace client.name in
      let name = oauth_secret_name client in
      let blank = blank_secret client.namespace name in
      let old = laws.find secret client.namespace name u.0 in
      let (y, u1, e1, r1) = >>=-ok _ _ _ _ u e in
      let (_, u2, e2, last) = >>=-ok _ _ _ _ u1 r1 in
      let update =
        fresh.updated_ok secret blank y (mutate_client_secret c own client) u.0 u1.0 u.1 u1.1 e1 in
      let (elsewhere, reported) = update_client_status-ok u1 u2 e2 in
      let fits =
        Ensures-eq (λ q. ClientFit c client secret old q.0)
          (mutate_client_secret c own client (get_or blank old) u.1)
          (mutate_client_secret-Fit c sound own client client.namespace name old u.1
            (own-Owns cc laws.owned oauth_client client.namespace client.name))
          update.mutated in
      (
        Ensures-eq (λ z. z ≡ done) (ok done) refl (ap (λ p. p.0) last),
        subst (λ w. ClientReconciled u.0 w.0) (ap (λ p. p.1) last)
            (record {
              held = y;
              fits = fits;
              there = elsewhere secret _ _ refl ∙ update.written.here;
              reported = reported;
            }),
      )

module _ (c : Crypto) (cc : ClusterClient c.Source) (laws : IsCluster cc)
    (fresh : IsCurrent cc laws) (sound : IsSound c) where
  -- Where reads are current, a run of the client controller that finds its client and ends without
  -- an error asks for no further run, leaves in the cluster a Secret with the client ID and, for a
  -- confidential client, completed credentials beside the data that was there, and the name of that
  -- Secret is in the status of the client, as it was read or as it is written.
  pub reconcile_client-Reconciled :
      (req : Request) (client : AutheliaOauthClient) (r : ReconcileResult) (u v : World c cc)
      → cc.get oauth_client req.namespace req.name u.0 ≡ ok client
      → reconcile_client c cc req u ≡ (ok r, v)
      → (r ≡ done) × ClientReconciled c cc laws client u.0 v.0
  unfolding reconcile_client
  reconcile_client-Reconciled req client r u v got e =
      reconcile_oauth_client-Reconciled c cc laws client fresh sound r u v
        (subst (λ x. found_or_done (reconcile_oauth_client c cc) x u ≡ (ok r, v)) got e)
