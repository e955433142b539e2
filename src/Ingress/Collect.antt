-- ===== src/Ingress/Collect.antt =====
-- collectIngressRules and mapIngressToAuthelia of internal/controller/authelia_controller.go, from
-- the lists that the API returns.
use mathlib.Core.List.{mem-cons_self, mem-cons_of_mem}
use heliop.Base.{
  String, true, Option, some, List, [], ◌∷◌, ◌++◌, Mem, ◌≡◌, refl, arith, All, All-append, contains,
  eq_refl,
}
use heliop.Base.Dict.{lookup}
use heliop.Base.Result.{Result, ok, panic, ◌>>=◌}
use heliop.Base.Sort.{All-sort}
use heliop.Json.{Value, str, arr, Object, elems, items, array, to_iface_slice}
use heliop.Ingress.{
  Ingress, AccessRule, ingress_access_rules, sort_access_rules, ingress_domains, rule_less,
}
use heliop.Ingress.Rules.{ingress_access_rules-IsDerived}

-- `for _, d := range v { domains = append(domains, d.(string)) }`
as_strings : List Value → Result (List String)
as_strings [] = ok []
as_strings (str s ∷ vs) = as_strings vs >>= λ ss. ok (s ∷ ss)
as_strings (_ ∷ vs) = panic

-- `v.([]any)`, and the loop over it
domain_strings : Option Value → Result (List String)
unfolding as_strings
domain_strings (some (arr vs)) = as_strings (elems vs)
domain_strings _ = panic

rule_domains : List AccessRule → Result (List String)
unfolding domain_strings lookup
rule_domains [] = ok []
rule_domains (r ∷ rs) =
    domain_strings (lookup "domain" r.rule) >>= λ ds. rule_domains rs >>= λ rest. ok (ds ++ rest)

pub rule_of : List AccessRule → List Object
rule_of [] = []
rule_of (r ∷ rs) = r.rule ∷ rule_of rs

module _ (parse : String → Option Value) where
  unfoldable pub all_rules : List Ingress → List AccessRule
  unfolding ingress_access_rules
  all_rules [] = []
  all_rules (i ∷ is) = ingress_access_rules parse i ++ all_rules is

  -- The list of the Ingresses is `none` where the API fails.
  unfoldable pub collect_ingress_rules : Result (List Ingress) → Result (List Object × List String)
  unfolding all_rules sort_access_rules rule_of rule_domains
  collect_ingress_rules listed = listed >>= λ ingresses.
      let rules = sort_access_rules (all_rules ingresses) in
      rule_domains rules >>= λ domains. ok (rule_of rules, domains)

as_strings-items : (ss : List String) → as_strings (elems (items (to_iface_slice ss))) ≡ ok ss
unfolding as_strings
as_strings-items [] = refl
as_strings-items (s ∷ ss) = rw (as_strings-items ss)

-- A rule that carries the domains of one of the Ingresses.
record IsForced (ingresses : List Ingress) (r : AccessRule) : Type 0 where
  ing : Ingress
  listed : Mem ing ingresses
  forced : lookup "domain" r.rule ≡ some (array (to_iface_slice (ingress_domains ing)))

-- A domain of one of the Ingresses.
abbrev pub IsDomainOf : List Ingress → String → Type 0
IsDomainOf ingresses x = (i : Ingress) × Mem i ingresses × (contains (ingress_domains i) x ≡ true)

All-imp {κ} :
    {P Q : AccessRule → Type κ}
    → ((r : AccessRule) → P r → Q r)
    → (rs : List AccessRule) → All P rs
    → All Q rs
All-imp f [] h = tt
All-imp f (r ∷ rs) h = (f r h.0, All-imp f rs h.1)

All-contains :
    (P : String → Type 0) (xs : List String)
    → ((x : String) → contains xs x ≡ true → P x)
    → All P xs
All-contains P [] f = tt
All-contains P (x ∷ xs) f =
    (f x (ground (arith, eq_refl x)), All-contains P xs (λ y h. f y (ground arith)))

module _ (parse : String → Option Value) where
  all_rules-IsForced :
      (ingresses : List Ingress) → All (IsForced ingresses) (all_rules parse ingresses)
  unfolding all_rules
  all_rules-IsForced [] = tt
  all_rules-IsForced (i ∷ is) =
      All-append _ (ingress_access_rules parse i) (all_rules parse is)
        (All-imp (λ r d. record { ing = i; listed = mem-cons_self; forced = d.forced }) _
          (ingress_access_rules-IsDerived parse i))
        (All-imp
          (λ r f. record { ing = f.ing; listed = mem-cons_of_mem i f.listed; forced = f.forced }) _
          (all_rules-IsForced is))

rule_domains-total :
    (ingresses : List Ingress) (rs : List AccessRule)
    → All (IsForced ingresses) rs
    → (ds : List String) × (rule_domains rs ≡ ok ds) × All (IsDomainOf ingresses) ds
unfolding rule_domains domain_strings
rule_domains-total ingresses [] h = ([], refl, tt)
rule_domains-total ingresses (r ∷ rs) (f, h) =
    let (ds, e, a) = rule_domains-total ingresses rs h in
    let own = ingress_domains f.ing in
    (
      own ++ ds,
      rw (f.forced, as_strings-items own, e) refl,
      All-append _ own ds (All-contains _ own (λ x m. (f.ing, f.listed, m))) a,
    )

-- Where the API lists the Ingresses, collecting their rules succeeds: none of the type assertions on
-- "domain" panics, whatever the annotations hold. The result is the sorted list of all their rules,
-- with domains for the status that all are domains of the listed Ingresses.
pub collect_ingress_rules_total :
    (parse : String → Option Value) (ingresses : List Ingress)
    → (ds : List String) × (collect_ingress_rules parse (ok ingresses)
        ≡ ok (rule_of (sort_access_rules (all_rules parse ingresses)), ds))
      × All (IsDomainOf ingresses) ds
unfolding collect_ingress_rules sort_access_rules
collect_ingress_rules_total parse ingresses =
    let rules = sort_access_rules (all_rules parse ingresses) in
    let (ds, e, a) =
      rule_domains-total ingresses rules
        (All-sort rule_less _ _ (all_rules-IsForced parse ingresses)) in
    (ds, rw e refl, a)
