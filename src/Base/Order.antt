-- ===== src/Base/Order.antt =====
-- The order of strings as an order to sort by: the comparison of `sort.Strings`.
use Prim.Native.String.{String}
use mathlib.Core.Path.{◌≡◌}
use mathlib.Core.Logic.{◌≢◌, inl, inr}
use mathlib.Core.Bool.{true, false}
use heliop.Base.Tests.{Bool-cases}
use mathlib.Core.List.{List, Perm}
use mathlib.Core.List.Perm
use native.Mathlib.Omega.{arith}
use heliop.Base.Strings.{lt_str, lt_str_irrefl, lt_str_total, lt_str_trans}
use heliop.Base.Sort.{IsWeakOrder, sort, sort-perm, sort-IsSorted, IsSorted-eq_of_perm}

pub lt_str-le_trans :
    (a b c : String) → lt_str b a ≡ false → lt_str c b ≡ false → lt_str c a ≡ false
lt_str-le_trans a b c h k = ground (arith, lt_str_total a b, lt_str_trans c a b)

pub str_order : IsWeakOrder lt_str
str_order = record {
  asym = λ a b h. ground (arith, lt_str_trans a b a, lt_str_irrefl a);
  le_trans = lt_str-le_trans;
}

pub lt_str_of_ne : (a b : String) → lt_str b a ≡ false → a ≢ b → lt_str a b ≡ true
lt_str_of_ne a b below ne = elim (Bool-cases (lt_str a b)) [
  | inl h ↦ h
  | inr h ↦ absurd (ne (lt_str_total a b h below))
]

-- One list of texts has one sorted arrangement.
pub sort-eq_of_perm : (xs ys : List String) → Perm xs ys → sort lt_str xs ≡ sort lt_str ys
sort-eq_of_perm xs ys p =
    IsSorted-eq_of_perm lt_str str_order _ _ (λ a b m n h k. lt_str_total a b h k)
      (sort-IsSorted lt_str str_order xs) (sort-IsSorted lt_str str_order ys)
      (Perm.trans (sort-perm lt_str xs) (Perm.trans p (Perm.symm (sort-perm lt_str ys))))
