-- ===== src/Base/Sort.antt =====
-- Stable sorting by a `less` function, as `sort.Strings` and `sort.SliceStable` do it.
use mathlib.Core.Path.{◌≡◌, refl, ap₂}
use mathlib.Core.Logic.{inl, inr}
use mathlib.Core.Logic.Or
use mathlib.Core.Bool.{Bool, true, false, Bool-set}
use mathlib.Core.List.{
  List, [], ◌∷◌, Mem, Perm, Pairwise, mem-cons, mem-cons_self, Pairwise-cons, mem-cons_of_mem,
  Pairwise-singleton,
}
use mathlib.Core.List.Perm
use mathlib.Core.List.Pairwise
use native.Mathlib.Omega.{arith}
use heliop.Base.Lists.{keep, All}
use heliop.Base.Tests.{Bool-cases, if◌then◌else◌}

-- What a comparison has to satisfy: a strict order whose incomparable elements form classes.
pub record IsWeakOrder {ℓ} {A : Type ℓ} (lt : A → A → Bool) : Type ℓ where
  pub asym : (a b : A) → lt a b ≡ true → lt b a ≡ false
  -- not above is transitive
  pub le_trans : (a b c : A) → lt b a ≡ false → lt c b ≡ false → lt c a ≡ false

module _ {ℓ} {A : Type ℓ} (lt : A → A → Bool) where
  unfoldable pub insert_sorted : A → List A → List A
  insert_sorted x [] = x ∷ []
  insert_sorted x (y ∷ ys) = if lt y x then y ∷ insert_sorted x ys else x ∷ y ∷ ys

  unfoldable pub sort : List A → List A
  unfolding insert_sorted
  sort [] = []
  sort (x ∷ xs) = insert_sorted x (sort xs)

  -- No element is above a later one.
  abbrev pub IsSorted : List A → Type ℓ
  IsSorted = Pairwise (λ a b. lt b a ≡ false)

  insert_sorted-perm : (x : A) (ys : List A) → Perm (insert_sorted x ys) (x ∷ ys)
  unfolding insert_sorted
  insert_sorted-perm x [] = Perm.rfl
  insert_sorted-perm x (y ∷ ys) = elim (Bool-cases (lt y x)) [
    | inl h ↦ rw h (Perm.trans (Perm.cons y (insert_sorted-perm x ys)) (Perm.swap _ _ _))
    | inr h ↦ rw h Perm.rfl
  ]

  pub sort-perm : (xs : List A) → Perm (sort xs) xs
  unfolding sort
  sort-perm [] = Perm.rfl
  sort-perm (x ∷ xs) = Perm.trans (insert_sorted-perm x (sort xs)) (Perm.cons x (sort-perm xs))

  abbrev IsBelow : A → List A → Type ℓ
  IsBelow a l = (b : A) → Mem b l → lt b a ≡ false

  IsBelow-cons : {a b : A} {l : List A} → lt b a ≡ false → IsBelow a l → IsBelow a (b ∷ l)
  IsBelow-cons {a} {b} h k x m = Or.elim (Bool-set _ _) (mem-cons.0 m) (λ e. rw e h) (k x)

  All-insert_sorted {κ} :
      (P : A → Type κ) (x : A) (ys : List A) → P x → All P ys → All P (insert_sorted x ys)
  unfolding insert_sorted
  All-insert_sorted P x [] h k = (h, tt)
  All-insert_sorted P x (y ∷ ys) h k = elim (Bool-cases (lt y x)) [
    | inl e ↦ rw e (k.0, All-insert_sorted P x ys h k.1)
    | inr e ↦ rw e (h, k)
  ]

  pub All-sort {κ} : (P : A → Type κ) (xs : List A) → All P xs → All P (sort xs)
  unfolding sort
  All-sort P [] h = tt
  All-sort P (x ∷ xs) h = All-insert_sorted P x (sort xs) h.0 (All-sort P xs h.1)

  IsBelow-perm : {a : A} {l r : List A} → Perm l r → IsBelow a r → IsBelow a l
  IsBelow-perm p k x m = k x ((Perm.mem_iff p).0 m)

  module _ (w : IsWeakOrder lt) where
    IsBelow-head : {a b : A} {l : List A} → lt b a ≡ false → IsBelow b l → IsBelow a (b ∷ l)
    IsBelow-head {a} {b} h k = IsBelow-cons h λ x m. w.le_trans a b x h (k x m)

    insert_sorted-IsSorted : (x : A) (ys : List A) → IsSorted ys → IsSorted (insert_sorted x ys)
    unfolding insert_sorted
    insert_sorted-IsSorted x [] s = Pairwise-singleton _ x
    insert_sorted-IsSorted x (y ∷ ys) s =
        let (below, rest) = Pairwise-cons.0 s in
        elim (Bool-cases (lt y x)) [
          | inl h ↦ rw h (
              Pairwise.cons
                (IsBelow-perm (insert_sorted-perm x ys) (IsBelow-cons (w.asym y x h) below))
                (insert_sorted-IsSorted x ys rest))
          | inr h ↦ rw h (Pairwise.cons (IsBelow-head h below) s)
        ]

    pub sort-IsSorted : (xs : List A) → IsSorted (sort xs)
    unfolding sort
    sort-IsSorted [] = Pairwise.nil
    sort-IsSorted (x ∷ xs) = insert_sorted-IsSorted x (sort xs) (sort-IsSorted xs)

    heads_le : {a b : A} {l r : List A} → IsSorted (a ∷ l) → Perm (b ∷ r) (a ∷ l) → lt b a ≡ false
    heads_le {a} {b} s p =
        IsBelow-perm p (IsBelow-head (irrefl a) (Pairwise-cons.0 s).0) b mem-cons_self
      where
        irrefl : (a : A) → lt a a ≡ false
        irrefl a = ground (arith, w.asym a a)

    -- Where incomparable members are equal, a list has one sorted arrangement.
    pub IsSorted-eq_of_perm :
        (xs ys : List A)
        → ((a b : A) → Mem a xs → Mem b xs → lt a b ≡ false → lt b a ≡ false → a ≡ b)
        → IsSorted xs
        → IsSorted ys
        → Perm xs ys
        → xs ≡ ys
    IsSorted-eq_of_perm [] ys anti sx sy p = Perm.nil-eq p
    IsSorted-eq_of_perm (x ∷ xs) [] anti sx sy p = Perm.eq-nil p
    IsSorted-eq_of_perm (x ∷ xs) (y ∷ ys) anti sx sy p =
        let y_in : Mem y (x ∷ xs) = (Perm.mem_iff p).1 mem-cons_self in
        let heads = anti x y mem-cons_self y_in (heads_le sy p) (heads_le sx (Perm.symm p)) in
        let tails = Perm.cons_inv (Perm.trans p (Perm.symm (Perm.cons' heads Perm.rfl))) in
        ap₂ ◌∷◌ heads (
          IsSorted-eq_of_perm xs ys
            (λ a b m n. anti a b (mem-cons_of_mem x m) (mem-cons_of_mem x n)) (Pairwise.of_cons sx)
            (Pairwise.of_cons sy) tails)

  keep-insert_sorted :
      (p : A → Bool)
      → ((a b : A) → p a ≡ true → p b ≡ true → lt a b ≡ false)
      → (x : A) (ys : List A) → keep p (insert_sorted x ys) ≡ keep p (x ∷ ys)
  unfolding insert_sorted
  keep-insert_sorted p tied x [] = refl
  keep-insert_sorted p tied x (y ∷ ys) = ground (arith, tied y x, keep-insert_sorted p tied x ys)

  -- Stability: elements of one class keep their order.
  pub keep-sort :
      (p : A → Bool)
      → ((a b : A) → p a ≡ true → p b ≡ true → lt a b ≡ false)
      → (xs : List A) → keep p (sort xs) ≡ keep p xs
  unfolding sort
  keep-sort p tied [] = refl
  keep-sort p tied (x ∷ xs) =
      ground (arith, keep-insert_sorted p tied x (sort xs), keep-sort p tied xs)
