-- ===== src/Secrets/Digest.antt =====
-- The text that hashClientSecret of internal/controller/secrets.go prints, read by an independent
-- description of the format: variant, iterations, salt and key behind dollar signs.
pub mod Example
use Prim.Native.String.{[] as empty, ◌∷◌ as ◌+>◌}
use text.Mathlib.TextLemmas.{cons-append, nil-append, append_assoc}
use heliop.Base.{
  ℕ, String, ◌<>◌, Char, code, Bool, true, false, ◌&&◌, ◌||◌, Option, none, some, List, [], ◌∷◌,
  ◌≡◌, refl, sym, ap, ◌∙◌, arith, ◌==◌, if◌then◌else◌, nat_eq, eq_refl, inl, inr, Bool-cases,
}
use heliop.Base.Result.{Result, ok, err, panic, Ensures, Ensures-of_eq, Ensures-eq, Ensures->>=}
use heliop.Secrets.{Crypto, pbkdf2_iterations, hash_client_secret}

abbrev is_dollar : Char → Bool
is_dollar x = nat_eq (code x) 36

abbrev pub has_dollar : String → Bool
has_dollar empty = false
has_dollar (x +> s) = is_dollar x || has_dollar s

abbrev onto_first : Char → List String → List String
onto_first x [] = (x +> "") ∷ []
onto_first x (s ∷ fields) = (x +> s) ∷ fields

-- The fields of a text, between dollar signs.
abbrev pub split : String → List String
split empty = "" ∷ []
split (x +> s) = let fields = split s in if is_dollar x then "" ∷ fields else onto_first x fields

split-last : (s : String) → has_dollar s ≡ false → split s ≡ s ∷ []
split-last empty h = refl
split-last (x +> s) h =
    let no_dollar : is_dollar x ≡ false = ground arith in
    rw (no_dollar, split-last s (ground arith)) refl

split-cons : (s rest : String) → has_dollar s ≡ false → split (s <> ("$" <> rest)) ≡ s ∷ split rest
split-cons empty rest h = rw (nil-append, cons-append "$" "" rest, nil-append) refl
split-cons (x +> s) rest h =
    let no_dollar : is_dollar x ≡ false = ground arith in
    rw (cons-append x s ("$" <> rest), no_dollar, split-cons s rest (ground arith)) refl

-- What base64 and `%d` document: neither prints a dollar sign, and each has an inverse.
pub record Codec (c : Crypto) : Type 0 where
  pub decode : String → Option String
  pub decoded : (s : String) → decode (c.crypt64 s) ≡ some s
  pub parse_decimal : String → Option ℕ
  pub parsed : (n : ℕ) → parse_decimal (c.decimal n) ≡ some n
  pub plain_text : (s : String) → has_dollar (c.crypt64 s) ≡ false
  pub plain_number : (n : ℕ) → has_dollar (c.decimal n) ≡ false

abbrev gives : Result String → String → Bool
gives (ok key) k = key == k
gives _ k = false

module _ (c : Crypto) (codec : Codec c) where
  -- The key of a digest is derived from the secret with the salt and the iterations of the digest.
  abbrev derives : String → Option ℕ → Option String → Option String → Bool
  derives secret (some n) (some salt) (some key) = gives (c.pbkdf2 secret salt n 64) key
  derives secret _ _ _ = false

  abbrev accepts_fields : String → List String → Bool
  accepts_fields secret (lead ∷ variant ∷ n ∷ salt ∷ key ∷ []) =
      lead == ""
      && (variant == "pbkdf2-sha512"
          && derives secret (codec.parse_decimal n) (codec.decode salt) (codec.decode key))
  accepts_fields secret _ = false

  -- What a reader of the format makes of a digest and a secret.
  unfoldable pub accepts : String → String → Bool
  accepts digest secret = accepts_fields secret (split digest)

  abbrev printed : String → String → String → String
  printed n salt key = "$pbkdf2-sha512$" <> n <> "$" <> salt <> "$" <> key

  split-printed :
      (n salt key : String)
      → has_dollar n ≡ false
      → has_dollar salt ≡ false
      → has_dollar key ≡ false
      → split (printed n salt key) ≡ "" ∷ "pbkdf2-sha512" ∷ n ∷ salt ∷ key ∷ []
  split-printed n salt key hn hs hk =
      let rest = n <> "$" <> salt <> "$" <> key in
      let shape : printed n salt key ≡ ("" <> ("$" <> ("pbkdf2-sha512" <> ("$" <> rest)))) =
        append_assoc "$pbkdf2-sha512" "$" rest
        ∙ append_assoc "$" "pbkdf2-sha512" ("$" <> rest)
        ∙ sym (nil-append _) in
      rw
        (
          shape,
          split-cons "" ("pbkdf2-sha512" <> ("$" <> rest)) refl,
          split-cons "pbkdf2-sha512" rest refl,
          split-cons n (salt <> "$" <> key) hn,
          split-cons salt key hs,
          split-last key hk,
        )
        refl

  -- A digest that is printed for a secret is read as one of that secret: it has the five fields of
  -- the format, its number of iterations and its salt are read back, and the key derived with them
  -- from the secret is the one that is read.
  pub accepts-hash_client_secret :
      (secret digest : String) (s t : c.Source)
      → hash_client_secret c secret s ≡ ok (digest, t)
      → accepts digest secret ≡ true
  unfolding hash_client_secret accepts
  accepts-hash_client_secret secret digest s t e =
      Ensures-eq (λ r. accepts_fields secret (split r.0) ≡ true) (hash_client_secret c secret s)
        (Ensures->>= (λ _. Unit {0}) _ (c.read 16 s) _ (Ensures-of_eq _ _ (λ _ _. tt))
          (λ (salt, s1) _.
            Ensures->>= (λ key. c.pbkdf2 secret salt pbkdf2_iterations 64 ≡ ok key) _
              (c.pbkdf2 secret salt pbkdf2_iterations 64) _ (Ensures-of_eq _ _ (λ key h. h))
              (λ key h.
                rw
                  (
                    split-printed (c.decimal pbkdf2_iterations) (c.crypt64 salt) (c.crypt64 key)
                        (codec.plain_number _) (codec.plain_text _) (codec.plain_text _),
                    codec.parsed,
                    codec.decoded,
                    codec.decoded,
                    h,
                  )
                  (eq_refl key))))
        e
