-- ===== src/Secrets/Once.antt =====
-- generatedCoreSecretData of internal/controller/secrets.go: the whole data, and a second run.
use mathlib.Core.Bool.{false≢true}
use heliop.Base.{
  String, true, false, Option, some, List, [], ◌∷◌, ◌≡◌, ◌⊎◌, refl, ◌∙◌, ap, arith, eq_iff, ◌==◌,
  contains, Bool-cases, String-cases, eq_refl, inl, inr, ◌++◌,
}
use heliop.Base.Dict.{Dict, lookup}
use heliop.Base.Result.{ok, Ensures, Ensures-eq, Ensures->>=, Ensures-imp}
use heliop.Secrets.{
  Crypto, IsSound, text_keys, bytes_at, fill_text, fill_texts, fill_pem, map_of,
  generated_core_secret_data,
}
use heliop.Secrets.Alphanumeric.{IsKey}
use heliop.Secrets.Core.{
  IsFilled, bytes_at-eq, pem_key, fill_texts-IsFilled, fill_pem-Ensures, IsRsaPem,
}

abbrev pub core_keys : List String
core_keys = text_keys ++ pem_key ∷ []

-- The data `n` that is made of the data `m`.
pub record IsCompleted (m n : Dict String) : Type 0 where
  pub keeps : (k : String) → (bytes_at k m == "") ≡ false → bytes_at k n ≡ bytes_at k m
  pub others : (k : String) → contains core_keys k ≡ false → lookup k n ≡ lookup k m
  pub filled : (k : String) → contains core_keys k ≡ true → (bytes_at k n == "") ≡ false
  pub generated :
      (k : String)
      → contains text_keys k ≡ true
      → (bytes_at k m == "") ≡ true
      → IsKey 64 (bytes_at k n)

-- From the three text keys to the private key.
module _ (m m1 n : Dict String) (texts : IsFilled text_keys m m1)
    (rest : (k : String) → (pem_key == k) ≡ false → lookup k n ≡ lookup k m1)
    (old : (bytes_at pem_key m1 == "") ≡ false → n ≡ m1)
    (pem : (bytes_at pem_key n == "") ≡ false) where
  text_is_not_pem : (k : String) → contains text_keys k ≡ true → (pem_key == k) ≡ false
  text_is_not_pem k h = elim (String-cases pem_key k) [
    | inl e ↦ let bad : contains text_keys pem_key ≡ true = rw (← e) at h in absurd (false≢true bad)
    | inr n ↦ n
  ]

  keeps_pem : (k : String) → (bytes_at k m1 == "") ≡ false → bytes_at k n ≡ bytes_at k m1
  keeps_pem k h = elim (Bool-cases (pem_key == k)) [
    | inl e ↦ let same = (eq_iff pem_key k).0 e in ap (bytes_at k) (old (rw same h))
    | inr e ↦ bytes_at-eq k m1 n (rest k e)
  ]

  completed : IsCompleted m n
  completed = record {
    keeps =
        λ k h. let first = bytes_at-eq k m m1 (texts.keeps k h) in keeps_pem k (rw first h) ∙ first;
    others = λ k h. rest k (ground arith) ∙ texts.others k (ground arith);
    filled = λ k h. elim (Bool-cases (contains text_keys k)) [
      | inl e ↦ rw (keeps_pem k (texts.filled k e)) (texts.filled k e)
      | inr e ↦ let same = (eq_iff pem_key k).0 (ground arith) in rw (← same) pem
    ];
    generated = λ k h e. rw (keeps_pem k (texts.filled k h)) (texts.generated k h e);
  }

module _ (c : Crypto) (sound : IsSound c) where
  -- There was a private key, or it is a new one.
  abbrev pub KeyGenerated : Dict String → Dict String → Type 0
  KeyGenerated m n = ((bytes_at pem_key m == "") ≡ false) ⊎ IsRsaPem c sound (bytes_at pem_key n)

  generated-Ensures :
      (m : Option (Dict String)) (s : c.Source)
      → Ensures
          (λ st. IsCompleted (map_of m) st.0 × KeyGenerated (map_of m) st.0)
          (generated_core_secret_data c m s)
  unfolding generated_core_secret_data
  generated-Ensures m s =
      Ensures->>= (λ st. IsFilled text_keys (map_of m) st.0) _
        (fill_texts c text_keys (map_of m, s)) _
        (fill_texts-IsFilled c sound text_keys (map_of m) s)
        (λ (m1, t) texts.
          Ensures-imp _ _ (fill_pem c (m1, t)) (fill_pem-Ensures c sound m1 t)
            (λ (n, u) (rest, old, pem, made). (
              completed (map_of m) m1 n texts rest old pem,
              rw (bytes_at-eq pem_key (map_of m) m1 (texts.others pem_key refl)) at made,
            )))

  -- The core secret is completed: a value that is there is never rotated and other keys stay; all
  -- four keys have a value then; what is generated for a text key has 64 letters and digits; the private
  -- key was there, or it is the PEM block of type RSA PRIVATE KEY of the PKCS #1 form of a generated key
  -- of 4096 bits.
  pub generated_core_secret_data_lem :
      (m : Option (Dict String)) (s t : c.Source) (n : Dict String)
      → generated_core_secret_data c m s ≡ ok (n, t)
      → IsCompleted (map_of m) n × KeyGenerated (map_of m) n
  generated_core_secret_data_lem m s t n e =
      Ensures-eq (λ st. IsCompleted (map_of m) st.0 × KeyGenerated (map_of m) st.0) _
        (generated-Ensures m s) e

module _ (c : Crypto) where
  fill_text-full :
      (k : String) (m : Dict String) (s : c.Source)
      → (bytes_at k m == "") ≡ false
      → fill_text c k (m, s) ≡ ok (m, s)
  unfolding fill_text
  fill_text-full k m s h = rw h

  fill_texts-full :
      (ks : List String) (m : Dict String) (s : c.Source)
      → ((k : String) → contains ks k ≡ true → (bytes_at k m == "") ≡ false)
      → fill_texts c ks (m, s) ≡ ok (m, s)
  unfolding fill_texts
  fill_texts-full [] m s full = refl
  fill_texts-full (k ∷ ks) m s full =
      rw (fill_text-full k m s (full k (ground (arith, eq_refl k))))
        (fill_texts-full ks m s (λ j h. full j (ground arith)))

  generated-full :
      (m : Dict String) (s : c.Source)
      → ((k : String) → contains core_keys k ≡ true → (bytes_at k m == "") ≡ false)
      → generated_core_secret_data c (some m) s ≡ ok (m, s)
  unfolding generated_core_secret_data
  generated-full m s full =
      rw (fill_texts-full text_keys m s (λ k h. full k (ground arith)), fill_pem, full pem_key refl)

-- Completed data comes back unchanged, and no randomness is drawn for it: reconciling again changes
-- no value.
pub generated_core_secret_data_idempotent :
    (c : Crypto) (sound : IsSound c) (m : Option (Dict String)) (s t u : c.Source) (n : Dict String)
    → generated_core_secret_data c m s ≡ ok (n, t)
    → generated_core_secret_data c (some n) u ≡ ok (n, u)
generated_core_secret_data_idempotent c sound m s t u n e =
    generated-full c n u (generated_core_secret_data_lem c sound m s t n e).0.filled
