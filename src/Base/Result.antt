-- ===== src/Base/Result.antt =====
-- What a Go function ends in: a value, an error, or a panic.
use mathlib.Core.Path.{◌≡◌, refl, subst}

-- The errors that the controllers make or wrap; `api` is an error of the cluster's API other than
-- "not found", `generating` one of the random source or of the crypto libraries.
pub data Error : Type 0 where
  parsing_additional_config marshalling_config generating api not_found : Error

pub data Result {ℓ} (A : Type ℓ) : Type ℓ where
  ok : A → Result A
  err : Error → Result A
  panic : Result A

infixl 5 ◌>>=◌
abbrev pub ◌>>=◌ {ℓ κ} : {A : Type ℓ} {B : Type κ} → Result A → (A → Result B) → Result B
panic >>= next = panic
err cause >>= next = err cause
ok value >>= next = next value

module _ {ℓ κ} {A : Type ℓ} (P : A → Type κ) where
  -- A postcondition of the value, if there is one.
  abbrev pub Ensures : Result A → Type κ
  Ensures (ok a) = P a
  Ensures (err e) = Unit
  Ensures panic = Unit

  pub Ensures-of_eq : (m : Result A) → ((a : A) → m ≡ ok a → P a) → Ensures m
  Ensures-of_eq (ok a) f = f a refl
  Ensures-of_eq (err e) f = tt
  Ensures-of_eq panic f = tt

  pub Ensures-eq : (m : Result A) {a : A} → Ensures m → m ≡ ok a → P a
  Ensures-eq m h e = subst Ensures e h

pub Ensures->>= {ℓ κ μ ν} :
    {A : Type ℓ} {B : Type κ} (P : A → Type μ) (Q : B → Type ν) (m : Result A) (f : A → Result B)
    → Ensures P m
    → ((a : A) → P a → Ensures Q (f a))
    → Ensures Q (m >>= f)
Ensures->>= P Q (ok a) f h k = k a h
Ensures->>= P Q (err e) f h k = tt
Ensures->>= P Q panic f h k = tt

pub Ensures-imp {ℓ κ μ} :
    {A : Type ℓ} (P : A → Type κ) (Q : A → Type μ) (m : Result A)
    → Ensures P m
    → ((a : A) → P a → Ensures Q (ok a))
    → Ensures Q m
Ensures-imp P Q (ok a) h k = k a h
Ensures-imp P Q (err e) h k = tt
Ensures-imp P Q panic h k = tt

-- There is a value.
abbrev pub IsOk {ℓ} : {A : Type ℓ} → Result A → Type ℓ
IsOk {A} m = (a : A) × (m ≡ ok a)

pub IsOk->>= {ℓ κ} :
    {A : Type ℓ} {B : Type κ} (m : Result A) (f : A → Result B)
    → IsOk m
    → ((a : A) → IsOk (f a))
    → IsOk (m >>= f)
IsOk->>= m f (a, e) k = rw e (k a)
