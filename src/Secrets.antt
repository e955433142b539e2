-- ===== src/Secrets.antt =====
-- internal/controller/secrets.go: the generated secrets. Byte slices are kept as texts.
pub mod Alphanumeric
pub mod Core
pub mod Digest
pub mod Once
pub mod Tests
pub mod Totality
use Prim.Native.String.{char_at, len}
use Prim.Native.String.{[] as empty, ◌∷◌ as ◌+>◌}
use heliop.Base.{
  false, ℕ, zero, suc, ◌<◌, String, ◌<>◌, Option, none, some, List, [], ◌∷◌, ◌≡◌, ◌==◌,
  if◌then◌else◌,
}
use heliop.Base.Dict.{Dict, lookup, insert}
use heliop.Base.Result.{Result, IsOk, ok, err, generating, ◌>>=◌}
use heliop.Api.{Authelia}

-- What the program uses of Go's crypto packages, over an unknown random source; a call fails with
-- the error `generating`.
pub record Crypto : Type 1 where
  pub Source : Type 0
  -- `rand.Int(rand.Reader, max)`
  pub int_below : ℕ → Source → Result (ℕ × Source)
  -- `rand.Read` of that many bytes
  pub read : ℕ → Source → Result (String × Source)
  -- `rsa.GenerateKey`, by the number of bits
  pub PrivateKey : Type 0
  pub generate_key : ℕ → Source → Result (PrivateKey × Source)
  -- `x509.MarshalPKCS1PrivateKey`
  pub marshal_pkcs1 : PrivateKey → String
  -- `pem.EncodeToMemory` of a block, by its type and its bytes
  pub encode_pem : String → String → String
  -- `pbkdf2.Key` with SHA-512: secret, salt, iterations, length
  pub pbkdf2 : String → String → ℕ → ℕ → Result String
  -- base64 with the alphabet of the digests, and the URL-safe one, both without padding
  pub crypt64 : String → String
  pub raw_url : String → String
  -- decimal digits, `%d`
  pub decimal : ℕ → String

-- What `crypto/rand` and the encoders document: numbers are below the bound, and neither a PEM block
-- nor the base64 text of 48 bytes is empty.
pub record IsSound (c : Crypto) : Type 0 where
  pub below : (n : ℕ) (s t : c.Source) (i : ℕ) → c.int_below n s ≡ ok (i, t) → i < n
  pub pem : (type bytes : String) → (c.encode_pem type bytes == "") ≡ false
  pub url : (s t : c.Source) (b : String) → c.read 48 s ≡ ok (b, t) → (c.raw_url b == "") ≡ false

-- No call of the crypto packages fails.
pub record IsReliable (c : Crypto) : Type 0 where
  pub int_below : (n : ℕ) (s : c.Source) → 0 < n → IsOk (c.int_below n s)
  pub read : (n : ℕ) (s : c.Source) → IsOk (c.read n s)
  pub generate_key : (n : ℕ) (s : c.Source) → IsOk (c.generate_key n s)
  pub pbkdf2 : (secret salt : String) (n length : ℕ) → IsOk (c.pbkdf2 secret salt n length)

abbrev pub key_session_encryption : String
key_session_encryption = "SESSION_ENCRYPTION_KEY"

abbrev pub key_storage_encryption : String
key_storage_encryption = "STORAGE_ENCRYPTION_KEY"

abbrev pub key_oidc_hmac_secret : String
key_oidc_hmac_secret = "OIDC_HMAC_SECRET"

abbrev pub key_oidc_private_key : String
key_oidc_private_key = "OIDC_PRIVATE_KEY"

abbrev pub alphanumeric : String
alphanumeric = "ABCDEFGHIJKLMNOPQRSTUVWXYZabcdefghijklmnopqrstuvwxyz0123456789"

abbrev pub pbkdf2_iterations : ℕ
pbkdf2_iterations = 310000

-- The generated keys that hold alphanumeric values, in the order of the loop.
abbrev pub text_keys : List String
text_keys = key_session_encryption ∷ key_storage_encryption ∷ key_oidc_hmac_secret ∷ []

unfoldable pub core_secret_name : Authelia → String
core_secret_name a =
    if a.spec.deployment.existing_secret == ""
    then a.name <> "-secrets"
    else a.spec.deployment.existing_secret

-- `data[key]`, or no bytes
bytes_or_empty : Option String → String
bytes_or_empty none = ""
bytes_or_empty (some v) = v

unfoldable pub bytes_at : String → Dict String → String
unfolding bytes_or_empty lookup
bytes_at key m = bytes_or_empty (lookup key m)

-- A nil map is replaced by an empty one.
abbrev pub map_of : Option (Dict String) → Dict String
map_of none = []
map_of (some m) = m

module _ (c : Crypto) where
  unfoldable pub generate_alphanumeric : ℕ → c.Source → Result (String × c.Source)
  generate_alphanumeric zero s = ok ("", s)
  generate_alphanumeric (suc n) s = do
    (i, s1) ← c.int_below (len alphanumeric) s
    (text, s2) ← generate_alphanumeric n s1
    ok (char_at alphanumeric i +> text, s2)

  -- `hashClientSecret`; SHA-512 has 64 bytes.
  unfoldable pub hash_client_secret : String → c.Source → Result (String × c.Source)
  hash_client_secret secret s = do
    (salt, s1) ← c.read 16 s
    key ← c.pbkdf2 secret salt pbkdf2_iterations 64
    ok (
      "$pbkdf2-sha512$"
          <> c.decimal pbkdf2_iterations
          <> "$"
          <> c.crypt64 salt
          <> "$"
          <> c.crypt64 key,
      s1,
    )

  -- One round of the loop of `generatedCoreSecretData`.
  fill_text : String → Dict String × c.Source → Result (Dict String × c.Source)
  unfolding bytes_at insert generate_alphanumeric
  fill_text key (m, s) =
      if bytes_at key m == ""
      then (generate_alphanumeric 64 s >>= λ (v, s1). ok (insert key v m, s1))
      else ok (m, s)

  pub fill_texts : List String → Dict String × c.Source → Result (Dict String × c.Source)
  unfolding fill_text
  fill_texts [] st = ok st
  fill_texts (key ∷ ks) st = fill_text key st >>= λ st1. fill_texts ks st1

  -- `generateRSAPrivateKeyPEM`
  unfoldable pub generate_rsa_private_key_pem : c.Source → Result (String × c.Source)
  generate_rsa_private_key_pem s = do
    (key, t) ← c.generate_key 4096 s
    ok (c.encode_pem "RSA PRIVATE KEY" (c.marshal_pkcs1 key), t)

  pub fill_pem : Dict String × c.Source → Result (Dict String × c.Source)
  unfolding bytes_at insert generate_rsa_private_key_pem
  fill_pem (m, s) =
      if bytes_at key_oidc_private_key m == ""
      then (generate_rsa_private_key_pem s >>= λ (p, s1). ok (insert key_oidc_private_key p m, s1))
      else ok (m, s)

  unfoldable pub generated_core_secret_data :
      Option (Dict String) → c.Source → Result (Dict String × c.Source)
  unfolding fill_texts fill_pem
  generated_core_secret_data m s = fill_texts text_keys (map_of m, s) >>= λ st. fill_pem st
