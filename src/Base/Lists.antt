-- ===== src/Base/Lists.antt =====
-- Slices: filters, membership as a test, and predicates on every element.
use Prim.Native.Nat.{ℕ, suc}
use Prim.Native.String.{String}
use mathlib.Core.Path.{◌≡◌, refl, sym}
use mathlib.Core.Logic.{◌↔◌, inl, inr, ∥∥₁_elim}
use mathlib.Core.Logic.Or
use mathlib.Core.Bool.{Bool, true, false, ◌||◌, Bool-set}
use mathlib.Core.List.{
  List, [], ◌∷◌, ◌++◌, Mem, mem-cons, mem-cons_of_mem, mem-cons_self, not-mem-nil,
}
use mathlib.Core.List.Perm
use mathlib.Core.List.{Perm, Permᴰ}
use native.Mathlib.Omega.{arith}
use text.Mathlib.TextEquality.{eq_iff}
use heliop.Base.Tests.{◌==◌, Bool-cases, String-cases, if◌then◌else◌}

abbrev pub contains : List String → String → Bool
contains [] k = false
contains (j ∷ js) k = j == k || contains js k

module _ {ℓ} {A : Type ℓ} where
  abbrev pub length : List A → ℕ
  length [] = 0
  length (x ∷ xs) = suc (length xs)

  abbrev pub keep : (A → Bool) → List A → List A
  keep p [] = []
  keep p (x ∷ xs) = if p x then x ∷ keep p xs else keep p xs

  abbrev pub All {κ} : (A → Type κ) → List A → Type κ
  All P [] = Unit
  All P (x ∷ xs) = P x × All P xs

  pub All-append {κ} : (P : A → Type κ) (xs ys : List A) → All P xs → All P ys → All P (xs ++ ys)
  All-append P [] ys h k = k
  All-append P (x ∷ xs) ys (p, h) k = (p, All-append P xs ys h k)

pub contains-append :
    (xs ys : List String) (k : String) → contains (xs ++ ys) k ≡ (contains xs k || contains ys k)
contains-append [] ys k = refl
contains-append (x ∷ xs) ys k = ground (arith, contains-append xs ys k)

contains→Mem : (xs : List String) (k : String) → contains xs k ≡ true → Mem k xs
contains→Mem [] k h = absurd (ground arith)
contains→Mem (x ∷ xs) k h = elim (String-cases x k) [
  | inl e ↦ rw e mem-cons_self
  | inr n ↦ mem-cons_of_mem x (contains→Mem xs k (ground arith))
]

Mem→contains : (xs : List String) (k : String) → Mem k xs → contains xs k ≡ true
Mem→contains [] k m = absurd (not-mem-nil m)
Mem→contains (x ∷ xs) k m =
    Or.elim (Bool-set _ _) (mem-cons.0 m) (λ e. ground (arith, eq_iff x k))
      (λ n. let ih = Mem→contains xs k n in ground arith)

-- The test is membership.
pub contains_iff : (xs : List String) (k : String) → (contains xs k ≡ true) ↔ Mem k xs
contains_iff xs k = (contains→Mem xs k, Mem→contains xs k)

pub Bool-eq_of_iff : (a b : Bool) → (a ≡ true → b ≡ true) → (b ≡ true → a ≡ true) → a ≡ b
Bool-eq_of_iff true b f g = sym (f refl)
Bool-eq_of_iff false true f g = g refl
Bool-eq_of_iff false false f g = refl

pub contains-perm :
    (xs ys : List String) → Perm xs ys → (k : String) → contains xs k ≡ contains ys k
contains-perm xs ys p k =
    Bool-eq_of_iff _ _ (λ h. Mem→contains ys k ((Perm.mem_iff p).0 (contains→Mem xs k h)))
      (λ h. Mem→contains xs k ((Perm.mem_iff p).1 (contains→Mem ys k h)))

module _ {ℓ} {A : Type ℓ} (p : A → Bool) where
  keep-cons :
      (x : A) (xs ys : List A)
      → Perm (keep p xs) (keep p ys)
      → Perm (keep p (x ∷ xs)) (keep p (x ∷ ys))
  keep-cons x xs ys h = elim (Bool-cases (p x)) [ inl e ↦ rw e (Perm.cons x h) | inr e ↦ rw e h ]

  keep-swap : (x y : A) (xs : List A) → Perm (keep p (x ∷ y ∷ xs)) (keep p (y ∷ x ∷ xs))
  keep-swap x y xs = elim (Bool-cases (p x)) [
    | inl e ↦ elim (Bool-cases (p y)) [
      | inl k ↦ rw (e, k) (Perm.swap _ _ _)
      | inr k ↦ rw (e, k) Perm.rfl
    ]
    | inr e ↦ rw e Perm.rfl
  ]

  keep-permᴰ : {xs ys : List A} → Permᴰ xs ys → Perm (keep p xs) (keep p ys)
  keep-permᴰ Permᴰ.nil = Perm.rfl
  keep-permᴰ (Permᴰ.cons {a} {l₁} {l₂} e h) = rw (← e) (keep-cons a l₁ l₂ (keep-permᴰ h))
  keep-permᴰ (Permᴰ.swap {a} {b} {l} e f) = rw (← e, ← f) (keep-swap a b l)
  keep-permᴰ (Permᴰ.trans h k) = Perm.trans (keep-permᴰ h) (keep-permᴰ k)

  pub keep-perm : {xs ys : List A} → Perm xs ys → Perm (keep p xs) (keep p ys)
  keep-perm h = ∥∥₁_elim h squash₁ keep-permᴰ
