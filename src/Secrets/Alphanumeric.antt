-- ===== src/Secrets/Alphanumeric.antt =====
-- generateAlphanumeric of internal/controller/secrets.go.
use Prim.Native.Char.{code}
use Prim.Native.String.{String, char_at, count, [] as empty, ◌∷◌ as ◌+>◌}
use text.Mathlib.TextLemmas.{length-nil, length-cons}
use heliop.Base.{ℕ, zero, suc, ◌<◌, Bool, true, ◌&&◌, ◌||◌, ◌≡◌, refl, ap, ◌∙◌, leb, arith}
use heliop.Base.Result.{ok, Ensures, Ensures-eq, Ensures-of_eq, Ensures->>=}
use heliop.Secrets.{Crypto, IsSound, alphanumeric, generate_alphanumeric}

-- An ASCII letter or digit.
abbrev pub is_alphanumeric : ℕ → Bool
is_alphanumeric n =
    (leb b'A' n && leb n b'Z') || (leb b'a' n && leb n b'z') || (leb b'0' n && leb n b'9')

abbrev pub AllAlphanumeric : String → Type 0
AllAlphanumeric empty = Unit
AllAlphanumeric (c +> s) = (is_alphanumeric (code c) ≡ true) × AllAlphanumeric s

-- The first `n` characters of the alphabet are letters and digits.
checked : ℕ → Bool
checked zero = true
checked (suc n) = checked n && is_alphanumeric (code (char_at alphanumeric n))

checked_sound :
    (n i : ℕ) → i < n → checked n ≡ true → is_alphanumeric (code (char_at alphanumeric i)) ≡ true
unfolding checked
checked_sound zero i l h = absurd (omega arith)
checked_sound (suc n) i l h = ground (arith, checked_sound n i)

alphabet : checked 62 ≡ true
unfolding checked
alphabet = refl

-- A value of `n` letters and digits.
abbrev pub IsKey : ℕ → String → Type 0
IsKey n v = (count v ≡ n) × AllAlphanumeric v

IsKey-cons :
    (n i : ℕ) (v : String) → i < 62 → IsKey n v → IsKey (suc n) (char_at alphanumeric i +> v)
IsKey-cons n i v h (length, all) =
    (length-cons _ v ∙ ap suc length, (checked_sound 62 i h alphabet, all))

module _ (c : Crypto) (sound : IsSound c) where
  generate_alphanumeric-Ensures :
      (n : ℕ) (s : c.Source) → Ensures (λ r. IsKey n r.0) (generate_alphanumeric c n s)
  unfolding generate_alphanumeric
  generate_alphanumeric-Ensures zero s = (length-nil, tt)
  generate_alphanumeric-Ensures (suc n) s =
      Ensures->>= (λ r. r.0 < 62) _ (c.int_below 62 s) _
        (Ensures-of_eq _ _ (λ (i, t) e. sound.below 62 s t i e))
        (λ (i, t) h.
          Ensures->>= (λ r. IsKey n r.0) _ (generate_alphanumeric c n t) _
            (generate_alphanumeric-Ensures n t) (λ (v, u) k. IsKey-cons n i v h k))

  -- A generated value has the length that was asked for, and letters and digits only.
  pub generate_alphanumeric_lem :
      (n : ℕ) (s t : c.Source) (v : String)
      → generate_alphanumeric c n s ≡ ok (v, t)
      → (count v ≡ n) × AllAlphanumeric v
  generate_alphanumeric_lem n s t v e =
      Ensures-eq (λ r. IsKey n r.0) _ (generate_alphanumeric-Ensures n s) e
