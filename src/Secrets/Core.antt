-- ===== src/Secrets/Core.antt =====
-- generatedCoreSecretData of internal/controller/secrets.go: values are generated once.
use Prim.Native.String.{count}
use heliop.Base.{
  String, true, false, List, [], ◌∷◌, ◌≡◌, ◌⊎◌, refl, arith, eq_iff, ◌==◌, contains, if◌then◌else◌,
  if_false, Bool-cases, String-cases, inl, inr, ap, ◌∙◌,
}
use heliop.Base.Dict.{Dict, lookup, insert, lookup-insert}
use heliop.Base.Result.{ok, Ensures, Ensures-of_eq, Ensures->>=, Ensures-imp}
use heliop.Secrets.{
  Crypto, IsSound, key_oidc_private_key, bytes_at, bytes_or_empty, generate_alphanumeric, fill_text,
  fill_texts, fill_pem, generate_rsa_private_key_pem,
}
use heliop.Secrets.Alphanumeric.{IsKey, generate_alphanumeric_lem}

pub bytes_at-insert :
    (k j v : String) (m : Dict String)
    → bytes_at j (insert k v m) ≡ (if k == j then v else bytes_at j m)
unfolding bytes_at
bytes_at-insert k j v m = ground (arith, lookup-insert k j v m)

pub bytes_at-eq :
    (k : String) (m n : Dict String) → lookup k n ≡ lookup k m → bytes_at k n ≡ bytes_at k m
unfolding bytes_at
bytes_at-eq k m n h = ap bytes_or_empty h

IsKey-ne : (v : String) → IsKey 64 v → (v == "") ≡ false
IsKey-ne v k = elim (String-cases v "") [
  | inl e ↦ let zero_long = ap count e in absurd (omega (arith, k.0))
  | inr n ↦ n
]

-- What filling in the values of some keys does to a map: a value that is there stays, and so do the
-- other keys; each of the keys has a value then, one of 64 letters and digits if it had none.
pub record IsFilled (ks : List String) (m n : Dict String) : Type 0 where
  pub keeps : (k : String) → (bytes_at k m == "") ≡ false → lookup k n ≡ lookup k m
  pub others : (k : String) → contains ks k ≡ false → lookup k n ≡ lookup k m
  pub filled : (k : String) → contains ks k ≡ true → (bytes_at k n == "") ≡ false
  pub generated :
      (k : String) → contains ks k ≡ true → (bytes_at k m == "") ≡ true → IsKey 64 (bytes_at k n)

IsFilled-old : (k : String) (m : Dict String) → (bytes_at k m == "") ≡ false → IsFilled (k ∷ []) m m
IsFilled-old k m h = record {
  keeps = λ j _. refl;
  others = λ j _. refl;
  filled = λ j i. ground (arith, eq_iff k j);
  generated = λ j i e. absurd (ground (arith, eq_iff k j));
}

IsFilled-insert :
    (k v : String) (m : Dict String)
    → (bytes_at k m == "") ≡ true
    → IsKey 64 v
    → IsFilled (k ∷ []) m (insert k v m)
IsFilled-insert k v m h key = record {
  keeps = λ j e. ground (arith, lookup-insert k j v m, eq_iff k j);
  others = λ j e. ground (arith, lookup-insert k j v m);
  filled = λ j i. rw bytes_at-insert (ground (arith, IsKey-ne v key));
  generated = λ j i e. let same : (k == j) ≡ true = ground arith in rw (bytes_at-insert, same) key;
}

-- Filling one key, then others.
module _ (k : String) (ks : List String) (m m1 n : Dict String) (a : IsFilled (k ∷ []) m m1)
    (b : IsFilled ks m1 n) where
  kept : (j : String) → (bytes_at j m1 == "") ≡ false → bytes_at j n ≡ bytes_at j m1
  kept j h = bytes_at-eq j m1 n (b.keeps j h)

  cons-keeps : (j : String) → (bytes_at j m == "") ≡ false → lookup j n ≡ lookup j m
  cons-keeps j e = let first = a.keeps j e in b.keeps j (rw (bytes_at-eq j m m1 first) e) ∙ first

  cons-filled : (j : String) → contains (k ∷ ks) j ≡ true → (bytes_at j n == "") ≡ false
  cons-filled j i = elim (Bool-cases (contains ks j)) [
    | inl h ↦ b.filled j h
    | inr h ↦ let there = a.filled j (ground arith) in rw (kept j there) there
  ]

  cons-generated :
      (j : String)
      → contains (k ∷ ks) j ≡ true
      → (bytes_at j m == "") ≡ true
      → IsKey 64 (bytes_at j n)
  cons-generated j i e = elim (Bool-cases (k == j)) [
    | inl h ↦ rw (kept j (a.filled j (ground arith))) (a.generated j (ground arith) e)
    | inr h ↦ b.generated j (ground arith) (rw (bytes_at-eq j m m1 (a.others j (ground arith))) e)
  ]

  IsFilled-cons : IsFilled (k ∷ ks) m n
  IsFilled-cons = record {
    keeps = cons-keeps;
    others = λ j e. b.others j (ground arith) ∙ a.others j (ground arith);
    filled = cons-filled;
    generated = cons-generated;
  }

abbrev pub pem_key : String
pem_key = key_oidc_private_key

module _ (c : Crypto) (sound : IsSound c) where
  fill_text-IsFilled :
      (k : String) (m : Dict String) (s : c.Source)
      → Ensures (λ st. IsFilled (k ∷ []) m st.0) (fill_text c k (m, s))
  unfolding fill_text
  fill_text-IsFilled k m s = elim (Bool-cases (bytes_at k m == "")) [
    | inl e ↦ rw e (
        Ensures->>= (λ r. IsKey 64 r.0) _ (generate_alphanumeric c 64 s) _
          (Ensures-of_eq _ _ (λ (v, t) g. generate_alphanumeric_lem c sound 64 s t v g))
          (λ (v, t) key. IsFilled-insert k v m e key))
    | inr e ↦ rw e (IsFilled-old k m e)
  ]

  pub fill_texts-IsFilled :
      (ks : List String) (m : Dict String) (s : c.Source)
      → Ensures (λ st. IsFilled ks m st.0) (fill_texts c ks (m, s))
  unfolding fill_texts
  fill_texts-IsFilled [] m s = record {
    keeps = λ j _. refl;
    others = λ j _. refl;
    filled = λ j i. absurd (ground arith);
    generated = λ j i e. absurd (ground arith);
  }
  fill_texts-IsFilled (k ∷ ks) m s =
      Ensures->>= (λ st. IsFilled (k ∷ []) m st.0) _ (fill_text c k (m, s)) _
        (fill_text-IsFilled k m s)
        (λ (m1, t) a.
          Ensures-imp (λ st. IsFilled ks m1 st.0) _ (fill_texts c ks (m1, t))
            (fill_texts-IsFilled ks m1 t) (λ (n, u) b. IsFilled-cons k ks m m1 n a b))

  -- A PEM block of a generated RSA key of 4096 bits.
  abbrev pub IsRsaPem : String → Type 0
  IsRsaPem v =
      (s : c.Source) × (t : c.Source) × (key : c.PrivateKey) × (c.generate_key 4096 s ≡ ok (key, t))
      × (v ≡ c.encode_pem "RSA PRIVATE KEY" (c.marshal_pkcs1 key))

  generate_rsa_private_key_pem-Ensures :
      (s : c.Source)
      → Ensures (λ r. ((r.0 == "") ≡ false) × IsRsaPem r.0) (generate_rsa_private_key_pem c s)
  unfolding generate_rsa_private_key_pem
  generate_rsa_private_key_pem-Ensures s =
      Ensures->>= (λ r. c.generate_key 4096 s ≡ ok r) _ (c.generate_key 4096 s) _
        (Ensures-of_eq _ _ (λ r made. made))
        (λ (key, t) made.
          (sound.pem "RSA PRIVATE KEY" (c.marshal_pkcs1 key), (s, t, key, made, refl)))

  -- The private key is filled in like the others, with what the PEM encoder gives.
  pub fill_pem-Ensures :
      (m : Dict String) (s : c.Source)
      → Ensures
          (λ st.
            ((k : String) → (pem_key == k) ≡ false → lookup k st.0 ≡ lookup k m)
            × ((bytes_at pem_key m == "") ≡ false → st.0 ≡ m)
            × ((bytes_at pem_key st.0 == "") ≡ false)
            × (((bytes_at pem_key m == "") ≡ false) ⊎ IsRsaPem (bytes_at pem_key st.0)))
          (fill_pem c (m, s))
  unfolding fill_pem
  fill_pem-Ensures m s = elim (Bool-cases (bytes_at pem_key m == "")) [
    | inl e ↦ rw e (
        Ensures->>= (λ r. ((r.0 == "") ≡ false) × IsRsaPem r.0) _ (generate_rsa_private_key_pem c s)
          _ (generate_rsa_private_key_pem-Ensures s)
          (λ (p, t) (ne, made). (
            λ k h. rw lookup-insert (if_false _ _ h),
            λ h. absurd (ground arith),
            rw bytes_at-insert ne,
            inr (rw bytes_at-insert made),
          )))
    | inr e ↦ rw e (λ k h. refl, λ h. refl, e, inl refl)
  ]
