-- ===== src/OauthClients/Verified.antt =====
-- The pair of values in a client's Secret, in internal/controller/autheliaoauthclient_controller.go.
use heliop.Base.{String, true, false, Option, ◌≡◌, ◌==◌}
use heliop.Base.Dict.{Dict}
use heliop.Base.Result.{ok}
use heliop.Api.{AutheliaOauthClient}
use heliop.Secrets.{Crypto, IsSound, bytes_at, map_of}
use heliop.Secrets.Digest.{Codec, accepts, accepts-hash_client_secret}
use heliop.OauthClients.{client_secret_key, digest_key, client_data}
use heliop.OauthClients.Data.{client_data_confidential}

module _ (c : Crypto) (sound : IsSound c) (codec : Codec c) where
  -- Where the Secret of a confidential client had no digest, the digest that the controller stores is
  -- read, by the format `$pbkdf2-sha512$iterations$salt$key`, as one of exactly the client secret that
  -- it stores: the key that is derived from that secret with the salt and the iterations of the
  -- digest is the key of the digest.
  pub client_data-accepts :
      (client : AutheliaOauthClient) (m : Option (Dict String)) (s t : c.Source) (n : Dict String)
      → client.spec.public ≡ false
      → (bytes_at digest_key (map_of m) == "") ≡ true
      → client_data c client m s ≡ ok (n, t)
      → accepts c codec (bytes_at digest_key n) (bytes_at client_secret_key n) ≡ true
  client_data-accepts client m s t n confidential no_digest e =
      let made = client_data_confidential c sound client m s t n confidential e in
      let (s1, t1, hashed) = made.digest_made no_digest in
      accepts-hash_client_secret c codec _ _ s1 t1 hashed
