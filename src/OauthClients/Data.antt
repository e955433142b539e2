-- ===== src/OauthClients/Data.antt =====
-- The data of a client's Secret, in internal/controller/autheliaoauthclient_controller.go.
use Prim.Native.String.{count, ◌∷◌ as ◌+>◌}
use text.Mathlib.TextLemmas.{cons-append, length-cons, length-nil}
use heliop.Base.{
  String, ◌<>◌, true, false, Option, none, some, List, [], ◌∷◌, ◌≡◌, refl, ap, ◌∙◌, arith, eq_refl,
  ◌==◌, contains, Bool-cases, String-cases, inl, inr, if_false,
}
use heliop.Base.Dict.{Dict, lookup, insert, erase, lookup-insert, lookup-erase}
use heliop.Base.Result.{ok, Ensures, Ensures-of_eq, Ensures-eq, Ensures->>=, Ensures-imp}
use heliop.Api.{AutheliaOauthClient}
use heliop.Secrets.{Crypto, IsSound, bytes_at, map_of, hash_client_secret}
use heliop.Secrets.Core.{bytes_at-insert, bytes_at-eq}
use heliop.OauthClients.{
  client_id_key, client_secret_key, digest_key, client_id_of, generate_secret, fill_client_secret,
  fill_digest, client_data,
}

abbrev pub client_keys : List String
client_keys = client_id_key ∷ client_secret_key ∷ digest_key ∷ []

-- What filling in one value does to the data: nothing if there is a value, else it writes one of
-- which `P` holds.
record IsFilledAt (k : String) (P : String → Type 0) (m n : Dict String) : Type 0 where
  old : (bytes_at k m == "") ≡ false → n ≡ m
  others : (j : String) → (k == j) ≡ false → lookup j n ≡ lookup j m
  filled : (bytes_at k n == "") ≡ false
  made : (bytes_at k m == "") ≡ true → P (bytes_at k n)

module _ (k : String) (P : String → Type 0) (m : Dict String) where
  IsFilledAt-old : (bytes_at k m == "") ≡ false → IsFilledAt k P m m
  IsFilledAt-old e = record {
    old = λ _. refl;
    others = λ j _. refl;
    filled = e;
    made = λ h. absurd (ground arith);
  }

  IsFilledAt-insert :
      (v : String)
      → (bytes_at k m == "") ≡ true
      → (v == "") ≡ false
      → P v
      → IsFilledAt k P m (insert k v m)
  IsFilledAt-insert v e ne p = record {
    old = λ h. absurd (ground arith);
    others = λ j h. rw lookup-insert (if_false _ _ h);
    filled = rw (bytes_at-insert, eq_refl k) ne;
    made = λ _. rw (bytes_at-insert, eq_refl k) p;
  }

module _ (c : Crypto) (sound : IsSound c) where
  generate_secret-Ensures :
      (s : c.Source) → Ensures (λ r. (r.0 == "") ≡ false) (generate_secret c s)
  unfolding generate_secret
  generate_secret-Ensures s =
      Ensures->>= (λ r. (c.raw_url r.0 == "") ≡ false) _ (c.read 48 s) _
        (Ensures-of_eq _ _ (λ (b, t) e. sound.url s t b e)) (λ (b, t) ne. ne)

  fill_client_secret-IsFilledAt :
      (m : Dict String) (s : c.Source)
      → Ensures
          (λ st. IsFilledAt client_secret_key (λ _. Unit) m st.0)
          (fill_client_secret c (m, s))
  unfolding fill_client_secret
  fill_client_secret-IsFilledAt m s = elim (Bool-cases (bytes_at client_secret_key m == "")) [
    | inl e ↦ rw e (
        Ensures->>= (λ r. (r.0 == "") ≡ false) _ (generate_secret c s) _ (generate_secret-Ensures s)
          (λ (v, t) ne. IsFilledAt-insert client_secret_key (λ _. Unit) m v e ne tt))
    | inr e ↦ rw e (IsFilledAt-old client_secret_key (λ _. Unit) m e)
  ]

cons-ne : (d : String) → (("$pbkdf2-sha512$" <> d) == "") ≡ false
cons-ne d =
    rw (cons-append "$" "pbkdf2-sha512$" d)
      (elim (String-cases ("$" +> ("pbkdf2-sha512$" <> d)) "") [
        | inl e ↦
            let long = ap count e in
            absurd (omega (arith, length-cons "$" ("pbkdf2-sha512$" <> d), length-nil, long))
        | inr n ↦ n
      ])

module _ (c : Crypto) where
  hash_client_secret-ne :
      (secret : String) (s : c.Source)
      → Ensures (λ r. (r.0 == "") ≡ false) (hash_client_secret c secret s)
  unfolding hash_client_secret
  hash_client_secret-ne secret s =
      Ensures->>= {0, 0, 0, 0} (λ _. Unit) _ (c.read 16 s) _ (Ensures-of_eq {0, 0} _ _ (λ _ _. tt))
        (λ (salt, t) _.
          Ensures->>= {0, 0, 0, 0} (λ _. Unit) _ (c.pbkdf2 secret salt 310000 64) _
            (Ensures-of_eq {0, 0} _ _ (λ _ _. tt)) (λ key _. cons-ne _))

  -- The text is a digest of the secret.
  abbrev pub IsDigest : String → String → Type 0
  IsDigest secret digest =
      (s : c.Source) × (t : c.Source) × (hash_client_secret c secret s ≡ ok (digest, t))

  fill_digest-IsFilledAt :
      (m : Dict String) (s : c.Source)
      → Ensures
          (λ st. IsFilledAt digest_key (IsDigest (bytes_at client_secret_key m)) m st.0)
          (fill_digest c (m, s))
  unfolding fill_digest
  fill_digest-IsFilledAt m s = elim (Bool-cases (bytes_at digest_key m == "")) [
    | inl e ↦ rw e (
        Ensures->>= (λ r. hash_client_secret c (bytes_at client_secret_key m) s ≡ ok r) _
          (hash_client_secret c (bytes_at client_secret_key m) s) _ (Ensures-of_eq _ _ (λ r h. h))
          (λ (v, t) h.
            IsFilledAt-insert digest_key (IsDigest (bytes_at client_secret_key m)) m v e
              (Ensures-eq (λ r. (r.0 == "") ≡ false) _ (hash_client_secret-ne _ s) h) (s, t, h)))
    | inr e ↦ rw e (IsFilledAt-old digest_key (IsDigest (bytes_at client_secret_key m)) m e)
  ]

  -- The data `n` of a confidential client, made of the data `m`.
  pub record IsClientData (client : AutheliaOauthClient) (m n : Dict String) : Type 0 where
    pub client_id : lookup client_id_key n ≡ some (client_id_of client)
    pub others : (k : String) → contains client_keys k ≡ false → lookup k n ≡ lookup k m
    pub secret_kept :
        (bytes_at client_secret_key m == "") ≡ false
        → bytes_at client_secret_key n ≡ bytes_at client_secret_key m
    pub digest_kept :
        (bytes_at digest_key m == "") ≡ false → bytes_at digest_key n ≡ bytes_at digest_key m
    pub secret_filled : (bytes_at client_secret_key n == "") ≡ false
    pub digest_filled : (bytes_at digest_key n == "") ≡ false
    pub digest_made :
        (bytes_at digest_key m == "") ≡ true
        → IsDigest (bytes_at client_secret_key n) (bytes_at digest_key n)

  module _ (client : AutheliaOauthClient) (m m1 n : Dict String)
      (a : IsFilledAt client_secret_key
        (λ _. Unit)
        (insert client_id_key (client_id_of client) m)
        m1)
      (b : IsFilledAt digest_key (IsDigest (bytes_at client_secret_key m1)) m1 n) where
    abbrev id_set : Dict String
    id_set = insert client_id_key (client_id_of client) m

    same_secret : bytes_at client_secret_key n ≡ bytes_at client_secret_key m1
    same_secret = bytes_at-eq client_secret_key m1 n (b.others client_secret_key refl)

    same_digest : bytes_at digest_key m1 ≡ bytes_at digest_key m
    same_digest =
        bytes_at-eq digest_key id_set m1 (a.others digest_key refl)
        ∙ bytes_at-insert client_id_key digest_key (client_id_of client) m

    old_secret : bytes_at client_secret_key id_set ≡ bytes_at client_secret_key m
    old_secret = bytes_at-insert client_id_key client_secret_key (client_id_of client) m

    IsClientData-of_filled : IsClientData client m n
    IsClientData-of_filled = record {
      client_id = b.others client_id_key refl ∙ a.others client_id_key refl ∙ rw lookup-insert refl;
      others = λ k h.
          b.others k (ground arith) ∙ a.others k (ground arith) ∙ rw lookup-insert (ground arith);
      secret_kept = λ h. same_secret ∙ rw (a.old (rw old_secret h)) old_secret;
      digest_kept = λ h. rw (b.old (rw same_digest h)) same_digest;
      secret_filled = rw same_secret a.filled;
      digest_filled = b.filled;
      digest_made = λ h. rw same_secret (b.made (rw same_digest h));
    }

module _ (c : Crypto) (sound : IsSound c) where
  -- The Secret of a confidential client is completed: it holds the client ID, a client secret and a
  -- digest. A secret or a digest that is there is never rotated, other keys stay, and a digest that is
  -- made is one of the secret that the data holds.
  pub client_data_confidential :
      (client : AutheliaOauthClient) (m : Option (Dict String)) (s t : c.Source) (n : Dict String)
      → client.spec.public ≡ false
      → client_data c client m s ≡ ok (n, t)
      → IsClientData c client (map_of m) n
  unfolding client_data
  client_data_confidential client m s t n confidential e =
      let m0 = insert client_id_key (client_id_of client) (map_of m) in
      Ensures-eq (λ st. IsClientData c client (map_of m) st.0) _
        (Ensures->>= (λ st. IsFilledAt client_secret_key (λ _. Unit) m0 st.0) _
          (fill_client_secret c (m0, s)) (λ st. fill_digest c st)
          (fill_client_secret-IsFilledAt c sound m0 s)
          (λ (m1, s1) a.
            Ensures-imp
              (λ st. IsFilledAt digest_key (IsDigest c (bytes_at client_secret_key m1)) m1 st.0) _
              (fill_digest c (m1, s1)) (fill_digest-IsFilledAt c m1 s1)
              (λ (n1, t1) b. IsClientData-of_filled c client (map_of m) m1 n1 a b)))
        (rw confidential at e)

-- The Secret of a public client has the client ID, and neither a secret nor a digest, also where it had
-- them before; no randomness is drawn, and other keys stay.
pub client_data_public :
    (c : Crypto) (client : AutheliaOauthClient) (m : Option (Dict String)) (s : c.Source)
    → client.spec.public ≡ true
    → (n : Dict String) × (client_data c client m s ≡ ok (n, s))
      × (lookup client_id_key n ≡ some (client_id_of client))
      × (lookup client_secret_key n ≡ none)
      × (lookup digest_key n ≡ none)
      × ((k : String) → contains client_keys k ≡ false → lookup k n ≡ lookup k (map_of m))
unfolding client_data
client_data_public c client m s public =
    let m0 = insert client_id_key (client_id_of client) (map_of m) in
    (
      erase digest_key (erase client_secret_key m0),
      rw public refl,
      rw (lookup-erase, lookup-erase, lookup-insert) refl,
      rw (lookup-erase, lookup-erase) refl,
      rw lookup-erase refl,
      λ k h. rw (lookup-erase, lookup-erase, lookup-insert) (ground arith),
    )
