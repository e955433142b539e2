-- ===== src/OauthClients/Totality.antt =====
-- The mutation of the client Secret, in internal/controller/autheliaoauthclient_controller.go,
-- fails only where a call of the crypto packages or SetControllerReference fails.
use heliop.Base.{
  String, true, false, Option, none, some, ◌≡◌, refl, ◌==◌, contains, Bool-cases, inl, inr,
}
use heliop.Base.Dict.{Dict, lookup, insert, lookup-insert}
use heliop.Base.Result.{Result, ok, IsOk, IsOk->>=}
use heliop.Api.{AutheliaOauthClient}
use heliop.Kubernetes.{ObjectMeta, Secret}
use heliop.Secrets.{Crypto, IsSound, IsReliable, bytes_at, map_of, hash_client_secret}
use heliop.Secrets.Totality.{hash_client_secret-IsOk}
use heliop.OauthClients.Data.{
  client_keys, IsClientData, client_data_confidential, client_data_public,
}
use heliop.OauthClients.{
  client_id_key, client_secret_key, digest_key, client_id_of, generate_secret, fill_client_secret,
  fill_digest, client_data, mutate_client_secret,
}

-- The data `n` of a client's Secret, made of the data `m`.
pub data IsCompleted (c : Crypto) (client : AutheliaOauthClient) (m n : Dict String) : Type 0 where
  public_completed :
      client.spec.public ≡ true
      → lookup client_id_key n ≡ some (client_id_of client)
      → lookup client_secret_key n ≡ none
      → lookup digest_key n ≡ none
      → ((k : String) → contains client_keys k ≡ false → lookup k n ≡ lookup k m)
      → IsCompleted c client m n
  confidential_completed :
      client.spec.public ≡ false → IsClientData c client m n → IsCompleted c client m n

module _ (c : Crypto) (reliable : IsReliable c) where
  generate_secret-IsOk : (s : c.Source) → IsOk (generate_secret c s)
  unfolding generate_secret
  generate_secret-IsOk s =
      IsOk->>= (c.read 48 s) _ (reliable.read 48 s) (λ (b, t). ((c.raw_url b, t), refl))

  fill_client_secret-IsOk : (m : Dict String) (s : c.Source) → IsOk (fill_client_secret c (m, s))
  unfolding fill_client_secret
  fill_client_secret-IsOk m s = elim (Bool-cases (bytes_at client_secret_key m == "")) [
    | inl e ↦ rw e (
        IsOk->>= (generate_secret c s) _ (generate_secret-IsOk s)
          (λ (v, t). ((insert client_secret_key v m, t), refl)))
    | inr e ↦ rw e ((m, s), refl)
  ]

  fill_digest-IsOk : (m : Dict String) (s : c.Source) → IsOk (fill_digest c (m, s))
  unfolding fill_digest
  fill_digest-IsOk m s = elim (Bool-cases (bytes_at digest_key m == "")) [
    | inl e ↦ rw e (
        IsOk->>= (hash_client_secret c (bytes_at client_secret_key m) s) _
          (hash_client_secret-IsOk c reliable (bytes_at client_secret_key m) s)
          (λ (v, t). ((insert digest_key v m, t), refl)))
    | inr e ↦ rw e ((m, s), refl)
  ]

  client_data-IsOk :
      (client : AutheliaOauthClient) (m : Option (Dict String)) (s : c.Source)
      → IsOk (client_data c client m s)
  unfolding client_data
  client_data-IsOk client m s = elim (Bool-cases client.spec.public) [
    | inl e ↦ rw e (_, refl)
    | inr e ↦ rw e (
        IsOk->>= (fill_client_secret c (insert client_id_key (client_id_of client) (map_of m), s)) _
          (fill_client_secret-IsOk (insert client_id_key (client_id_of client) (map_of m)) s)
          (λ (m1, t). fill_digest-IsOk m1 t))
  ]

  module _ (sound : IsSound c) (client : AutheliaOauthClient) where
    client_data-IsCompleted :
        (m : Option (Dict String)) (s : c.Source)
        → (n : Dict String) × (t : c.Source) × (client_data c client m s ≡ ok (n, t))
          × IsCompleted c client (map_of m) n
    client_data-IsCompleted m s = elim (Bool-cases client.spec.public) [
      | inl public ↦
          let (n, made, id, no_secret, no_digest, others) =
            client_data_public c client m s public in
          (n, s, made, public_completed public id no_secret no_digest others)
      | inr confidential ↦
          let ((n, t), made) = client_data-IsOk client m s in
          (
            n,
            t,
            made,
            confidential_completed confidential
                (client_data_confidential c sound client m s t n confidential made),
          )
    ]

    -- The mutation of the client Secret gives one whose data are completed, whatever the Secret holds
    -- and for each client, where the crypto packages do what they document, none of their calls fails,
    -- and the owner can be recorded on every object: with the client ID and without secret and digest
    -- for a public client; with the client ID, a secret and a digest, each kept where it was there, for
    -- a confidential one; and with the other keys as they were. The Secret keeps its name and namespace
    -- but for what recording the owner does to them, has the label of the operator, and its type is
    -- "Opaque".
    pub mutate_client_secret_total :
        (own : ObjectMeta → Result ObjectMeta)
        → ((meta : ObjectMeta) → IsOk (own meta))
        → (secret : Secret) (s : c.Source)
        → (x : Secret) × (t : c.Source) × (mutate_client_secret c own client secret s ≡ ok (x, t))
          × IsCompleted c client (map_of secret.contents) (map_of x.contents)
          × ((labels : Dict String) × (own (record secret.meta { labels = some labels })
                ≡ ok x.meta)
              × (lookup "app.kubernetes.io/managed-by" labels ≡ some "heliop"))
          × (x.type ≡ "Opaque")
    unfolding mutate_client_secret
    mutate_client_secret_total own owns secret s =
        let (n, t, made, completed) = client_data-IsCompleted secret.contents s in
        let labels = insert "app.kubernetes.io/managed-by" "heliop" (map_of secret.meta.labels) in
        let labelled = record secret.meta { labels = some labels } in
        let (meta, owned) = owns labelled in
        (
          record { meta = meta; type = "Opaque"; contents = some n },
          t,
          rw (made, owned) refl,
          completed,
          (labels, owned, rw lookup-insert refl),
          refl,
        )
