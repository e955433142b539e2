-- ===== src/Controllers/Moves/Clients.antt =====
-- Each write of internal/controller/autheliaoauthclient_controller.go is one that is allowed for the
-- client.
use heliop.Base.{refl, ◌==◌}
use heliop.Base.Action.{Action, Moves}
use heliop.Api.{AutheliaOauthClient}
use heliop.Cluster.{secret, oauth_client, ClusterClient}
use heliop.Cluster.Shared.{IsShared}
use heliop.Mutations.{blank_secret}
use heliop.OauthClients.{mutate_client_secret, oauth_secret_name}
use heliop.Secrets.{Crypto, IsSound}
use heliop.Controllers.{World, update_client_status, reconcile_oauth_client}
use heliop.Controllers.Fits.{own-Owns, mutate_client_secret-Fit}
use heliop.Controllers.Moves.{Scope, update-Moves, status-Moves, >>=-Moves, if-Moves, Writing}
use heliop.Writes.{client_name, ClientFit, here}

module _ (c : Crypto) (cc : ClusterClient c.Source) {Rely : cc.State → cc.State → Type 0}
    (laws : IsShared cc Rely) (sound : IsSound c) where
  module _ (client : AutheliaOauthClient) where
    abbrev pub client_scope : Scope
    client_scope = record {
      namespace = client.namespace;
      names = client_name client;
      Fit = ClientFit c client;
    }

    abbrev pub ClientMoves : {A : Type 0} → Action (World c cc) A → Type 0
    ClientMoves = Moves (Writing c cc laws client_scope)

    update_client_status-Moves : ClientMoves (update_client_status c cc client)
    unfolding update_client_status
    update_client_status-Moves =
        if-Moves c cc laws client_scope (client.status.secret_name == oauth_secret_name client) _ _
          (λ same w. here)
          (λ other.
            status-Moves c cc laws client_scope oauth_client _ client.name refl refl
              (λ o. (o, refl, refl)))

    pub reconcile_oauth_client-Moves : ClientMoves (reconcile_oauth_client c cc client)
    unfolding reconcile_oauth_client
    reconcile_oauth_client-Moves =
        let own = cc.own oauth_client client.namespace client.name in
        >>=-Moves c cc laws client_scope _ _
          (update-Moves c cc laws client_scope secret
            (blank_secret client.namespace (oauth_secret_name client)) (oauth_secret_name client)
            (mutate_client_secret c own client) refl refl
            (λ o s.
              mutate_client_secret-Fit c sound own client client.namespace
                (oauth_secret_name client) o s
                (own-Owns cc laws.owned oauth_client client.namespace client.name)))
          (λ _. >>=-Moves c cc laws client_scope _ _ update_client_status-Moves (λ _ w. here))
