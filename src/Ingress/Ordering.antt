-- ===== src/Ingress/Ordering.antt =====
-- sortAccessRules and resourceLen of internal/controller/ingress.go.
use Prim.Native.String.{len}
use mathlib.Core.List.{mem-cons_self, mem-cons_of_mem}
use mathlib.Core.List.Pairwise
use heliop.Base.{
  ℕ, ◌≤◌, String, Bool, true, false, Option, some, List, [], ◌∷◌, Mem, Perm, Pairwise, ◌≡◌, refl,
  ◌⊎◌, inl, inr, sym, ◌∙◌, arith, keep, not, nat_eq, bool_ne, ◌&&◌, ◌==◌, eq_iff, All,
}
use heliop.Base.Dict.{lookup}
use heliop.Base.Order.{str_order, lt_str-le_trans}
use heliop.Base.Sort.{IsWeakOrder, sort-perm, sort-IsSorted, keep-sort}
use heliop.Base.Strings.{lt_str, lt_str_irrefl}
use heliop.Json.{Value, str, arr, Object, elems}
use heliop.Ingress.{
  AccessRule, rule_less, sort_access_rules, longer, max_len, resource_len_of, resource_len,
}

rule_less-asym : (a b : AccessRule) → rule_less a b ≡ true → rule_less b a ≡ false
unfolding rule_less
rule_less-asym a b h = ground (arith, str_order.asym a.key b.key)

rule_less-le_trans :
    (a b c : AccessRule) → rule_less b a ≡ false → rule_less c b ≡ false → rule_less c a ≡ false
unfolding rule_less
rule_less-le_trans a b c h k = ground (arith, lt_str-le_trans a.key b.key c.key)

pub rule_order : IsWeakOrder rule_less
rule_order = record { asym = rule_less-asym; le_trans = rule_less-le_trans }

-- What the order promises of a rule that stands before another.
pub record IsBefore (a b : AccessRule) : Type 0 where
  pub longer : b.resource_len ≤ a.resource_len
  pub exact : a.resource_len ≡ b.resource_len → a.wildcard ≡ true → b.wildcard ≡ true
  pub by_key :
      a.resource_len ≡ b.resource_len → a.wildcard ≡ b.wildcard → lt_str b.key a.key ≡ false

IsBefore-of_not_less : (a b : AccessRule) → rule_less b a ≡ false → IsBefore a b
unfolding rule_less
IsBefore-of_not_less a b h = record {
  longer = ground arith;
  exact = λ e w. ground arith;
  by_key = λ e w. ground arith;
}

-- Rules of one place in the order: the comparison separates neither from the other.
abbrev pub has_place : ℕ → Bool → String → AccessRule → Bool
has_place n w k a = nat_eq a.resource_len n && not (bool_ne a.wildcard w) && a.key == k

place_tied :
    (n : ℕ) (w : Bool) (k : String) (a b : AccessRule)
    → has_place n w k a ≡ true
    → has_place n w k b ≡ true
    → rule_less a b ≡ false
unfolding rule_less
place_tied n w k a b h e = ground (arith, eq_iff a.key k, eq_iff b.key k, lt_str_irrefl k)

-- The sorted rules are a rearrangement of the rules. Of two of them, the first has no shorter
-- resource pattern; at equal lengths an exact rule stands before a wildcard rule; where both agree
-- the keys do not descend.
pub sort_access_rules_lem :
    (rules : List AccessRule)
    → Perm (sort_access_rules rules) rules × Pairwise IsBefore (sort_access_rules rules)
unfolding sort_access_rules
sort_access_rules_lem rules = (
  sort-perm rule_less rules,
  Pairwise.imp IsBefore-of_not_less (sort-IsSorted rule_less rule_order rules),
)

-- The sort is stable: rules with one resource length, wildcard flag and key keep their order.
pub sort_access_rules_stable :
    (rules : List AccessRule) (n : ℕ) (w : Bool) (k : String)
    → keep (has_place n w k) (sort_access_rules rules) ≡ keep (has_place n w k) rules
unfolding sort_access_rules
sort_access_rules_stable rules n w k =
    keep-sort rule_less (has_place n w k) (place_tied n w k) rules

-- The text patterns of a list of values.
abbrev pub patterns : List Value → List String
patterns [] = []
patterns (str s ∷ vs) = s ∷ patterns vs
patterns (_ ∷ vs) = patterns vs

-- The patterns of a rule: the texts of the list under "resources", or the one text there.
abbrev patterns_of : Option Value → List String
patterns_of (some (arr vs)) = patterns (elems vs)
patterns_of (some (str s)) = s ∷ []
patterns_of _ = []

abbrev pub rule_patterns : Object → List String
rule_patterns rule = patterns_of (lookup "resources" rule)

-- A number bounds the lengths of some texts, and is the length of one of them or the start value.
pub record IsLongest (start n : ℕ) (ss : List String) : Type 0 where
  pub bound : All (λ s. len s ≤ n) ss
  pub attained : (n ≡ start) ⊎ ((s : String) × Mem s ss × (len s ≡ n))

longer_cases :
    (n : ℕ) (s : String)
    → (n ≤ longer n s) × (len s ≤ longer n s) × ((longer n s ≡ n) ⊎ (longer n s ≡ len s))
unfolding longer
longer_cases n s = ground arith

max_len-ge : (n : ℕ) (vs : List Value) → n ≤ max_len n vs
unfolding max_len
max_len-ge n [] = omega arith
max_len-ge n (str s ∷ vs) = omega (arith, max_len-ge (longer n s) vs, (longer_cases n s).0)
max_len-ge n (_ ∷ vs) = max_len-ge n vs

IsLongest-cons :
    (start n : ℕ) (s : String) (ss : List String)
    → longer start s ≤ n
    → IsLongest (longer start s) n ss
    → IsLongest start n (s ∷ ss)
IsLongest-cons start n s ss h l = record {
  bound = (omega (arith, (longer_cases start s).1), l.bound);
  attained = elim l.attained [
    | inl e ↦ elim (longer_cases start s).2 [
      | inl k ↦ inl (e ∙ k)
      | inr k ↦ inr (s, mem-cons_self, sym (e ∙ k))
    ]
    | inr (t, m, e) ↦ inr (t, mem-cons_of_mem s m, e)
  ];
}

max_len-IsLongest : (n : ℕ) (vs : List Value) → IsLongest n (max_len n vs) (patterns vs)
unfolding max_len
max_len-IsLongest n [] = record { bound = tt; attained = inl refl }
max_len-IsLongest n (str s ∷ vs) =
    IsLongest-cons n _ s (patterns vs) (max_len-ge (longer n s) vs)
      (max_len-IsLongest (longer n s) vs)
max_len-IsLongest n (_ ∷ vs) = max_len-IsLongest n vs

resource_len_of-IsLongest : (v : Option Value) → IsLongest 0 (resource_len_of v) (patterns_of v)
unfolding resource_len_of
resource_len_of-IsLongest (some (arr vs)) = max_len-IsLongest 0 (elems vs)
resource_len_of-IsLongest (some (str s)) = record {
  bound = (omega arith, tt);
  attained = inr (s, mem-cons_self, refl);
}
resource_len_of-IsLongest _ = record { bound = tt; attained = inl refl }

-- The resource length of a rule is the greatest length, in bytes, of the texts under "resources",
-- and 0 where there is none.
pub resource_len_lem : (rule : Object) → IsLongest 0 (resource_len rule) (rule_patterns rule)
unfolding resource_len
resource_len_lem rule = resource_len_of-IsLongest (lookup "resources" rule)
