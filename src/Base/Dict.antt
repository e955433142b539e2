-- ===== src/Base/Dict.antt =====
-- Go maps with string keys, as association lists; and Go slices used as sets.
use text.Mathlib.TextEquality.{eq_iff}
use Prim.Native.String.{String}
use mathlib.Core.HLevel.{hedberg}
use mathlib.Core.Logic.{◌≢◌, inl, inr, ∥∥₁_map, ∥∥₁_elim}
use mathlib.Core.Path.{◌≡◌, refl, sym, ap, ap₂, ◌∙◌}
use mathlib.Core.Option
use mathlib.Core.Option.{Option, none, some, none-ne-some, some-injective}
use mathlib.Core.List.{List, [], ◌∷◌, Perm, Permᴰ, Nodup, Nodup-cons, mem-cons_self}
use mathlib.Core.List.Perm
use native.Mathlib.Omega.{arith}
use heliop.Base.Tests.{◌==◌, Bool-cases, String-cases, if◌then◌else◌}

abbrev pub Dict {ℓ} : Type ℓ → Type ℓ
Dict V = List (String × V)

abbrev pub keys {ℓ} : {V : Type ℓ} → Dict V → List String
keys [] = []
keys ((k, v) ∷ m) = k ∷ keys m

module _ {ℓ} {V : Type ℓ} where
  unfoldable pub lookup : String → Dict V → Option V
  lookup k [] = none
  lookup k ((j, v) ∷ m) = if j == k then some v else lookup k m

  -- `m[k] = v`
  unfoldable pub insert : String → V → Dict V → Dict V
  insert key x [] = (key, x) ∷ []
  insert key x (entry ∷ m) =
      let rest = insert key x m in if entry.0 == key then (key, x) ∷ m else entry ∷ rest

  -- `delete(m, k)`
  unfoldable pub erase : String → Dict V → Dict V
  erase k [] = []
  erase k ((j, w) ∷ m) = let rest = erase k m in if j == k then rest else (j, w) ∷ rest

  pub lookup-nil : (k : String) → lookup k [] ≡ none
  unfolding lookup
  lookup-nil k = refl

  pub lookup-cons :
      (k j : String) (v : V) (m : Dict V)
      → lookup j ((k, v) ∷ m) ≡ (if k == j then some v else lookup j m)
  unfolding lookup
  lookup-cons k j v m = refl

  pub lookup-insert :
      (key j : String) (x : V) (m : Dict V)
      → lookup j (insert key x m) ≡ (if key == j then some x else lookup j m)
  unfolding insert lookup
  lookup-insert key j x [] = refl
  lookup-insert key j x ((i, y) ∷ m) =
      ground (arith, lookup-insert key j x m, eq_iff i j, eq_iff i key, eq_iff key j)

  pub lookup-erase :
      (k j : String) (m : Dict V) → lookup j (erase k m) ≡ (if k == j then none else lookup j m)
  unfolding lookup erase
  lookup-erase k j [] = ground arith
  lookup-erase k j ((i, w) ∷ m) =
      ground (arith, eq_iff k j, eq_iff i k, eq_iff i j, lookup-erase k j m)

-- Writing what is there, and deleting what is not, changes nothing.
pub insert-same : (k v : String) (m : Dict String) → lookup k m ≡ some v → insert k v m ≡ m
unfolding lookup insert
insert-same k v [] h = absurd (none-ne-some v h)
insert-same k v ((j, w) ∷ m) h = elim (Bool-cases (j == k)) [
  | inl e ↦
      let key = (eq_iff j k).0 e in
      let value = some-injective w v (rw e at h) in rw (e, key, value) refl
  | inr e ↦ rw (e, insert-same k v m (rw e at h)) refl
]

pub erase-absent : (k : String) (m : Dict String) → lookup k m ≡ none → erase k m ≡ m
unfolding lookup erase
erase-absent k [] h = refl
erase-absent k ((j, w) ∷ m) h = elim (Bool-cases (j == k)) [
  | inl e ↦ absurd (none-ne-some w (sym (rw e at h)))
  | inr e ↦ rw (e, erase-absent k m (rw e at h)) refl
]

-- What a rearrangement of a map's entries changes: nothing, as a map holds a key once.
String-discrete : Discrete String
String-discrete s t = elim (String-cases s t) [
  | inl e ↦ yes e
  | inr n ↦ no (λ e. absurd (ground (arith, eq_iff s t)))
]

module _ {ℓ} {V : Type ℓ} where
  keys-permᴰ : {m n : Dict V} → Permᴰ m n → Permᴰ (keys m) (keys n)
  keys-permᴰ Permᴰ.nil = Permᴰ.nil
  keys-permᴰ (Permᴰ.cons e p) = Permᴰ.cons (ap (λ x. x.0) e) (keys-permᴰ p)
  keys-permᴰ (Permᴰ.swap e f) = Permᴰ.swap (ap (λ x. x.0) e) (ap (λ x. x.0) f)
  keys-permᴰ (Permᴰ.trans p q) = Permᴰ.trans (keys-permᴰ p) (keys-permᴰ q)

  pub keys-perm : {m n : Dict V} → Perm m n → Perm (keys m) (keys n)
  keys-perm p = ∥∥₁_map p keys-permᴰ

  -- No key twice.
  abbrev pub HasKeysOnce : Dict V → Type 0
  HasKeysOnce m = Nodup (keys m)

  lookup-swap :
      (k : String) (a b : String × V) (m : Dict V)
      → a.0 ≢ b.0
      → lookup k (a ∷ b ∷ m) ≡ lookup k (b ∷ a ∷ m)
  unfolding lookup
  lookup-swap k (i, v) (j, w) m h = ground (arith, eq_iff i k, eq_iff j k)

  lookup-tail :
      (k : String) (a : String × V) (m n : Dict V)
      → lookup k m ≡ lookup k n
      → lookup k (a ∷ m) ≡ lookup k (a ∷ n)
  unfolding lookup
  lookup-tail k (i, v) m n h = ground arith

  lookup-permᴰ : (k : String) {m n : Dict V} → Permᴰ m n → HasKeysOnce m → lookup k m ≡ lookup k n
  lookup-permᴰ k Permᴰ.nil u = refl
  lookup-permᴰ k (Permᴰ.cons {b} {l₁ = m} e p) u =
      ap (λ x. lookup k (x ∷ m)) e ∙ lookup-tail k b _ _ (lookup-permᴰ k p (Nodup-cons.0 u).1)
  lookup-permᴰ k (Permᴰ.swap {a} {b} {l = m} e f) u =
      lookup-swap k a b m (λ h. (Nodup-cons.0 u).0 (rw h mem-cons_self))
      ∙ ap₂ (λ x y. lookup k (x ∷ y ∷ m)) f e
  lookup-permᴰ k (Permᴰ.trans p q) u =
      lookup-permᴰ k p u ∙ lookup-permᴰ k q (Perm.nodup (keys-perm ∣ p ∣₁) u)

pub lookup-perm :
    {V : Type 0}
    → IsSet V
    → (k : String) {m n : Dict V} → Perm m n
    → HasKeysOnce m
    → lookup k m ≡ lookup k n
lookup-perm s k p u = ∥∥₁_elim p (Option.is_set s _ _) (λ q. lookup-permᴰ k q u)

pub String-set : IsSet String
String-set = hedberg String-discrete
