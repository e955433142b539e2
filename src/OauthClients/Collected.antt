-- ===== src/OauthClients/Collected.antt =====
-- collectClients of internal/controller/authelia_controller.go.
use heliop.Base.{
  String, Bool, List, [], ◌∷◌, length, keep, map, ◌≡◌, ◌⊎◌, refl, ◌==◌, ◌||◌, not, if◌then◌else◌,
  Bool-cases, inl, inr,
}
use heliop.Base.Dict.{Dict}
use heliop.Base.Result.{Result, ok, err, not_found}
use heliop.Api.{Authelia, AutheliaOauthClient}
use heliop.Secrets.{bytes_at}
use heliop.OauthClients.Ready.{rendered_client}
use heliop.OauthClients.{
  Listing, client_targets, digest_of, client_secret_digest, with_digest, listed, collect_clients,
  secret_name_of, digest_key,
}

-- The digest that the Secret of a client holds, or "" where it holds none or there is no Secret.
abbrev pub stored_digest : Result (Dict String) → String
stored_digest (ok m) = bytes_at digest_key m
stored_digest _ = ""

-- The API has an answer for each Secret: its data, or that there is none.
abbrev pub Answers : (String → String → Result (Dict String)) → Type 0
Answers get =
    (namespace name : String)
    → (get namespace name ≡ err not_found) ⊎ ((m : Dict String) × (get namespace name ≡ ok m))

-- The reference: the clients that target the Authelia, in their order; those that are public or have a
-- digest are rendered with it, the others are counted.
module _ (get : String → String → Result (Dict String)) (a : Authelia) where
  abbrev pub digest_in : AutheliaOauthClient → String
  digest_in client =
      if client.spec.public
      then ""
      else stored_digest (get client.namespace (secret_name_of client))

  abbrev pub is_ready : AutheliaOauthClient → Bool
  is_ready client = client.spec.public || not (digest_in client == "")

  abbrev pub targeting : List AutheliaOauthClient → List AutheliaOauthClient
  targeting = keep (λ client. client_targets client a)

  abbrev pub reference_listing : List AutheliaOauthClient → Listing
  reference_listing clients = record {
    clients =
        map (λ client. rendered_client client (digest_in client))
          (keep is_ready (targeting clients));
    missing = length (keep (λ client. not (is_ready client)) (targeting clients));
  }

module _ (get : String → String → Result (Dict String)) (answers : Answers get) (a : Authelia) where
  client_secret_digest-stored :
      (client : AutheliaOauthClient)
      → client_secret_digest get client
        ≡ ok (stored_digest (get client.namespace (secret_name_of client)))
  unfolding client_secret_digest digest_of
  client_secret_digest-stored client = elim (answers client.namespace (secret_name_of client)) [
    | inl e ↦ rw e refl
    | inr (m, e) ↦ rw e refl
  ]

  listed_reference :
      (client : AutheliaOauthClient) (clients : List AutheliaOauthClient)
      → listed get a client (ok (reference_listing get a clients))
        ≡ ok (reference_listing get a (client ∷ clients))
  unfolding listed with_digest
  listed_reference client clients = elim (Bool-cases (client_targets client a)) [
    | inl targets ↦ elim (Bool-cases client.spec.public) [
      | inl public ↦ rw (targets, public) refl
      | inr confidential ↦
          let d = stored_digest (get client.namespace (secret_name_of client)) in
          elim (Bool-cases (d == "")) [
            | inl none ↦ rw (targets, confidential, client_secret_digest-stored client, none) refl
            | inr given ↦ rw (targets, confidential, client_secret_digest-stored client, given) refl
          ]
    ]
    | inr other ↦ rw other refl
  ]

  -- Where the API answers for each Secret, with data or with "not found", the clients are collected
  -- without an error, as by the reference: of the clients that target the Authelia, each that is
  -- public or whose Secret holds a digest is rendered once, in the order of the list, with its ID
  -- resolved and with that digest; the others, and they alone, are counted as missing.
  pub collect_clients_total :
      (clients : List AutheliaOauthClient)
      → collect_clients get a clients ≡ ok (reference_listing get a clients)
  unfolding collect_clients
  collect_clients_total [] = refl
  collect_clients_total (client ∷ clients) =
      rw (collect_clients_total clients) (listed_reference client clients)
