-- ===== src/Secrets/Tests.antt =====
-- Runs of internal/controller/secrets.go on an example, and the theorems at it.
use heliop.Base.{ℕ, zero, suc, ◌<◌, String, ◌<>◌, false, some, [], ◌∷◌, ◌≡◌, refl, ◌==◌, arith}
use heliop.Base.Dict.{Dict, insert}
use heliop.Base.Result.{Result, ok, err, generating, Ensures, Ensures-eq, IsOk}
use heliop.Secrets.{
  Crypto, IsSound, IsReliable, bytes_at, generate_alphanumeric, hash_client_secret,
  generated_core_secret_data,
}
use heliop.Secrets.Once.{
  IsCompleted, KeyGenerated, generated_core_secret_data_lem, generated_core_secret_data_idempotent,
}

-- A counter as the source: every other number is 0 and 1, where there is a number below the bound.
abbrev pub int_below : ℕ → ℕ → Result (ℕ × ℕ)
int_below zero s = err generating
int_below (suc n) s = ok (zero, suc s)

abbrev pub example : Crypto
example = record {
  Source = ℕ;
  int_below = int_below;
  read = λ n s. ok ("salt", suc s);
  PrivateKey = Unit;
  generate_key = λ n s. ok (tt, suc s);
  marshal_pkcs1 = λ key. "";
  encode_pem = λ type bytes. "PEM";
  pbkdf2 = λ secret salt n length. ok (salt <> secret);
  crypt64 = λ s. s;
  raw_url = λ s. s;
  decimal = λ n. "310000";
}

int_below-Ensures : (n s : ℕ) → Ensures (λ r. r.0 < n) (int_below n s)
int_below-Ensures zero s = tt
int_below-Ensures (suc n) s = omega arith

int_below-bound : (n s t i : ℕ) → int_below n s ≡ ok (i, t) → i < n
int_below-bound n s t i e = Ensures-eq (λ r. r.0 < n) (int_below n s) (int_below-Ensures n s) e

pub example-IsSound : IsSound example
example-IsSound = record {
  below = int_below-bound;
  pem = λ type bytes. refl;
  url = λ s t b e. Ensures-eq (λ r. (r.0 == "") ≡ false) (ok ("salt", suc s)) refl e;
}

int_below-IsOk : (n s : ℕ) → 0 < n → IsOk (int_below n s)
int_below-IsOk zero s h = absurd (omega arith)
int_below-IsOk (suc n) s h = ((zero, suc s), refl)

pub example-IsReliable : IsReliable example
example-IsReliable = record {
  int_below = int_below-IsOk;
  read = λ n s. (("salt", suc s), refl);
  generate_key = λ n s. ((tt, suc s), refl);
  pbkdf2 = λ secret salt n length. (salt <> secret, refl);
}

four_letters : generate_alphanumeric example 4 7 ≡ ok ("AAAA", 11)
unfolding generate_alphanumeric
four_letters = refl

digest : hash_client_secret example "secret" 0 ≡ ok ("$pbkdf2-sha512$310000$salt$saltsecret", 1)
unfolding hash_client_secret
digest = refl

-- A core secret with one key set and one empty.
abbrev pub old : Dict String
old = ("OIDC_HMAC_SECRET", "") ∷ ("SESSION_ENCRYPTION_KEY", "kept") ∷ []

abbrev pub sixty_four : String
sixty_four = "AAAAAAAAAAAAAAAAAAAAAAAAAAAAAAAAAAAAAAAAAAAAAAAAAAAAAAAAAAAAAAAA"

abbrev pub new : Dict String
new =
    insert "OIDC_PRIVATE_KEY" "PEM"
      (insert "OIDC_HMAC_SECRET" sixty_four (insert "STORAGE_ENCRYPTION_KEY" sixty_four old))

pub old_completed : generated_core_secret_data example (some old) 0 ≡ ok (new, 129)
unfolding generated_core_secret_data generate_alphanumeric bytes_at
old_completed = refl

generated_core_secret_data_lem_example :
    IsCompleted old new × KeyGenerated example example-IsSound old new
generated_core_secret_data_lem_example =
    generated_core_secret_data_lem example example-IsSound (some old) 0 129 new old_completed

generated_core_secret_data_idempotent_example :
    generated_core_secret_data example (some new) 500 ≡ ok (new, 500)
generated_core_secret_data_idempotent_example =
    generated_core_secret_data_idempotent example example-IsSound (some old) 0 129 500 new
      old_completed
