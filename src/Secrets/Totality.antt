-- ===== src/Secrets/Totality.antt =====
-- internal/controller/secrets.go fails only where the crypto packages fail.
use heliop.Base.{
  ℕ, zero, suc, String, Option, List, [], ◌∷◌, refl, ◌==◌, arith, Bool-cases, inl, inr,
}
use heliop.Base.Dict.{Dict, insert}
use heliop.Base.Result.{IsOk, IsOk->>=}
use heliop.Secrets.{
  Crypto, IsReliable, text_keys, bytes_at, map_of, generate_alphanumeric, hash_client_secret,
  fill_text, fill_texts, fill_pem, generate_rsa_private_key_pem, key_oidc_private_key,
  generated_core_secret_data,
}

module _ (c : Crypto) (reliable : IsReliable c) where
  generate_alphanumeric-IsOk : (n : ℕ) (s : c.Source) → IsOk (generate_alphanumeric c n s)
  unfolding generate_alphanumeric
  generate_alphanumeric-IsOk zero s = (("", s), refl)
  generate_alphanumeric-IsOk (suc n) s =
      IsOk->>= (c.int_below 62 s) _ (reliable.int_below 62 s (omega arith)) (λ (i, t).
        IsOk->>= (generate_alphanumeric c n t) _ (generate_alphanumeric-IsOk n t)
          (λ (v, u). (_, refl)))

  pub hash_client_secret-IsOk :
      (secret : String) (s : c.Source) → IsOk (hash_client_secret c secret s)
  unfolding hash_client_secret
  hash_client_secret-IsOk secret s = IsOk->>= (c.read 16 s) _ (reliable.read 16 s) (λ (salt, t).
      IsOk->>= (c.pbkdf2 secret salt 310000 64) _ (reliable.pbkdf2 secret salt 310000 64)
        (λ key. (_, refl)))

  fill_text-IsOk : (k : String) (m : Dict String) (s : c.Source) → IsOk (fill_text c k (m, s))
  unfolding fill_text
  fill_text-IsOk k m s = elim (Bool-cases (bytes_at k m == "")) [
    | inl e ↦ rw e (
        IsOk->>= (generate_alphanumeric c 64 s) _ (generate_alphanumeric-IsOk 64 s)
          (λ (v, t). ((insert k v m, t), refl)))
    | inr e ↦ rw e ((m, s), refl)
  ]

  fill_texts-IsOk :
      (ks : List String) (m : Dict String) (s : c.Source) → IsOk (fill_texts c ks (m, s))
  unfolding fill_texts
  fill_texts-IsOk [] m s = ((m, s), refl)
  fill_texts-IsOk (k ∷ ks) m s =
      IsOk->>= (fill_text c k (m, s)) _ (fill_text-IsOk k m s) (λ (m1, t). fill_texts-IsOk ks m1 t)

  generate_rsa_private_key_pem-IsOk : (s : c.Source) → IsOk (generate_rsa_private_key_pem c s)
  unfolding generate_rsa_private_key_pem
  generate_rsa_private_key_pem-IsOk s =
      IsOk->>= (c.generate_key 4096 s) _ (reliable.generate_key 4096 s) (λ (key, t). (_, refl))

  fill_pem-IsOk : (m : Dict String) (s : c.Source) → IsOk (fill_pem c (m, s))
  unfolding fill_pem
  fill_pem-IsOk m s = elim (Bool-cases (bytes_at key_oidc_private_key m == "")) [
    | inl e ↦ rw e (
        IsOk->>= (generate_rsa_private_key_pem c s) _ (generate_rsa_private_key_pem-IsOk s)
          (λ (p, t). ((insert key_oidc_private_key p m, t), refl)))
    | inr e ↦ rw e ((m, s), refl)
  ]

  -- The core secret data is generated, from any data, where no call of the crypto packages fails.
  pub generated_core_secret_data_total :
      (m : Option (Dict String)) (s : c.Source) → IsOk (generated_core_secret_data c m s)
  unfolding generated_core_secret_data
  generated_core_secret_data_total m s =
      IsOk->>= (fill_texts c text_keys (map_of m, s)) _ (fill_texts-IsOk text_keys (map_of m) s)
        (λ (m1, t). fill_pem-IsOk m1 t)
