-- ===== src/OauthClients/Repeat.antt =====
-- A second run over the data of a client's Secret, in
-- internal/controller/autheliaoauthclient_controller.go.
use heliop.Base.{String, true, false, Option, none, some, ◌≡◌, refl, sym, ◌∙◌, Bool-cases, inl, inr}
use heliop.Base.Dict.{Dict, lookup, insert-same, erase-absent}
use heliop.Base.Result.{ok, Ensures-eq}
use heliop.Api.{AutheliaOauthClient}
use heliop.Secrets.{Crypto, IsSound, map_of}
use heliop.OauthClients.{
  client_id_key, client_secret_key, digest_key, client_id_of, fill_client_secret, fill_digest,
  client_data,
}
use heliop.OauthClients.Data.{IsClientData, client_data_confidential, client_data_public}

client_data-full :
    (c : Crypto) (client : AutheliaOauthClient) (m n : Dict String) (s : c.Source)
    → client.spec.public ≡ false
    → IsClientData c client m n
    → client_data c client (some n) s ≡ ok (n, s)
unfolding client_data fill_client_secret fill_digest
client_data-full c client m n s confidential d =
    rw
      (
        insert-same client_id_key (client_id_of client) n d.client_id,
        confidential,
        d.secret_filled,
        d.digest_filled,
      )
      refl

client_data-stripped :
    (c : Crypto) (client : AutheliaOauthClient) (n : Dict String) (s : c.Source)
    → client.spec.public ≡ true
    → lookup client_id_key n ≡ some (client_id_of client)
    → lookup client_secret_key n ≡ none
    → lookup digest_key n ≡ none
    → client_data c client (some n) s ≡ ok (n, s)
unfolding client_data
client_data-stripped c client n s public id no_secret no_digest =
    rw
      (
        insert-same client_id_key (client_id_of client) n id,
        public,
        erase-absent client_secret_key n no_secret,
        erase-absent digest_key n no_digest,
      )
      refl

pair-eq : {S : Type 0} {a b : Dict String × S} → ok a ≡ ok b → a.0 ≡ b.0
pair-eq {a} e = Ensures-eq (λ p. a.0 ≡ p.0) (ok a) refl e

-- Reconciling again changes nothing, for a public and for a confidential client: the data that a run
-- gives comes back unchanged, and no randomness is drawn for it.
pub client_data_idempotent :
    (c : Crypto) (sound : IsSound c)
    → (client : AutheliaOauthClient) (m : Option (Dict String)) (s t u : c.Source) (n : Dict String)
    → client_data c client m s ≡ ok (n, t)
    → client_data c client (some n) u ≡ ok (n, u)
client_data_idempotent c sound client m s t u n e = elim (Bool-cases client.spec.public) [
  | inl public ↦
      let (n1, run, id, no_secret, no_digest, _) = client_data_public c client m s public in
      let same = pair-eq (sym run ∙ e) in
      rw (← same) (client_data-stripped c client n1 u public id no_secret no_digest)
  | inr confidential ↦
      client_data-full c client (map_of m) n u confidential
        (client_data_confidential c sound client m s t n confidential e)
]
