-- ===== src/Ingress/Tests.antt =====
-- Runs of internal/controller/ingress.go on an example, and the theorems at it.
use mathlib.Core.List.{cons≢nil, Nodup, Nodup-cons, ne-nil_of_mem, mem-cons_self}
use mathlib.Core.List.Perm
use heliop.Base.{
  String, Bool, true, ◌&&◌, not, Option, none, some, List, [], ◌∷◌, Perm, Pairwise, Mem, ◌≡◌, ◌≢◌,
  refl, ◌==◌, All, contains, contains_iff, arith, if◌then◌else◌,
}
use heliop.Base.Dict.{Dict, keys, insert, HasKeysOnce}
use heliop.Base.Result.{ok}
use heliop.Base.Strings.{has_prefix}
use heliop.Json.{Value, str, Object, object, array, to_iface_slice}
use heliop.Ingress.{
  Ingress, AccessRule, is_set, is_rule_annotation, ingress_domains, policy_of, sort_access_rules,
  string_at, ingress_access_rules,
}
use heliop.Ingress.Collect.{
  collect_ingress_rules, collect_ingress_rules_total, all_rules, rule_of, IsDomainOf,
}
use heliop.Ingress.Ordering.{IsBefore, sort_access_rules_lem}
use heliop.Ingress.Rules.{IsDerived, ingress_access_rules-IsDerived}
use heliop.Ingress.Completeness.{ingress_access_rules_complete}
use heliop.Ingress.Stability.{ingress_access_rules-perm}

abbrev pub api_rule : Object
api_rule =
    ("policy", str "bypass")
    ∷ ("resources", array (str "^/api" ∷ str "^/health" ∷ []))
    ∷ ("domain", str "evil.example.org")
    ∷ []

abbrev pub parse_example : String → Option Value
parse_example s =
    if s == "API"
    then some (object api_rule)
    else if s == "ALL"
    then some (object (("policy", str "one_factor") ∷ []))
    else none

abbrev pub notes : Dict String
notes = ("heliop/rule", "ALL") ∷ ("heliop/rule-api", "API") ∷ ("heliop/rule-bad", "{") ∷ []

abbrev notes_moved : Dict String
notes_moved = ("heliop/rule-api", "API") ∷ ("heliop/rule", "ALL") ∷ ("heliop/rule-bad", "{") ∷ []

abbrev pub site : Ingress
site = record {
  namespace = "apps";
  name = "web";
  annotations = notes;
  rules = record { host = "web.example.org" } ∷ record { host = "" } ∷ [];
  tls = record { hosts = "web.example.org" ∷ "app.example.org" ∷ [] } ∷ [];
}

abbrev pub plain : Ingress
plain = record site { annotations = ("kubernetes.io/ingress.class", "nginx") ∷ [] }

site_domains : ingress_domains site ≡ "app.example.org" ∷ "web.example.org" ∷ []
unfolding ingress_domains
site_domains = refl

site_rules :
    collect_ingress_rules parse_example (ok (site ∷ []))
    ≡ ok (
      insert "domain" (array (str "app.example.org" ∷ str "web.example.org" ∷ [])) api_rule
          ∷ insert "domain"
              (array (str "app.example.org" ∷ str "web.example.org" ∷ []))
              (("policy", str "one_factor") ∷ [])
          ∷ [],
      "app.example.org" ∷ "web.example.org" ∷ "app.example.org" ∷ "web.example.org" ∷ [],
    )
unfolding collect_ingress_rules ingress_access_rules sort_access_rules insert is_rule_annotation
site_rules = refl

ingress_access_rules-IsDerived_example :
    All (IsDerived parse_example site) (ingress_access_rules parse_example site)
ingress_access_rules-IsDerived_example = ingress_access_rules-IsDerived parse_example site

site_domains_given : ingress_domains site ≢ []
unfolding ingress_domains
site_domains_given = ne-nil_of_mem {a = "app.example.org"} mem-cons_self

pub site_contributes : ingress_access_rules parse_example site ≢ []
unfolding ingress_access_rules is_rule_annotation has_prefix string_at is_set policy_of
site_contributes = λ e. cons≢nil e

ingress_access_rules_complete_example :
    (r : AccessRule) × Mem r (ingress_access_rules parse_example site)
    × (r.rule ≡ insert "domain" (array (to_iface_slice (ingress_domains site))) api_rule)
unfolding string_at is_set policy_of is_rule_annotation has_prefix
ingress_access_rules_complete_example =
    ingress_access_rules_complete parse_example site "heliop/rule-api" api_rule site_domains_given
      refl refl refl refl

collect_ingress_rules_total_example :
    (ds : List String) × (collect_ingress_rules parse_example (ok (site ∷ plain ∷ []))
      ≡ ok (rule_of (sort_access_rules (all_rules parse_example (site ∷ plain ∷ []))), ds))
    × All (IsDomainOf (site ∷ plain ∷ [])) ds
collect_ingress_rules_total_example = collect_ingress_rules_total parse_example (site ∷ plain ∷ [])

sort_access_rules_lem_example :
    let rules = ingress_access_rules parse_example site in
    Perm (sort_access_rules rules) rules × Pairwise IsBefore (sort_access_rules rules)
sort_access_rules_lem_example = sort_access_rules_lem (ingress_access_rules parse_example site)

-- A test for lists without repetitions.
distinct : List String → Bool
distinct [] = true
distinct (x ∷ xs) = not (contains xs x) && distinct xs

Nodup-of_distinct : (xs : List String) → distinct xs ≡ true → Nodup xs
unfolding distinct
Nodup-of_distinct [] h = Pairwise.nil
Nodup-of_distinct (x ∷ xs) h = Nodup-cons.1 (
  λ m. let c = (contains_iff xs x).1 m in absurd (ground arith),
  Nodup-of_distinct xs (ground arith),
)

notes_perm : Perm notes notes_moved
notes_perm =
    Perm.swap ("heliop/rule-api", "API") ("heliop/rule", "ALL") (("heliop/rule-bad", "{") ∷ [])

notes_once : HasKeysOnce notes
unfolding distinct
notes_once = Nodup-of_distinct (keys notes) refl

ingress_access_rules-perm_example :
    ingress_access_rules parse_example site
    ≡ ingress_access_rules parse_example (record site { annotations = notes_moved })
ingress_access_rules-perm_example =
    ingress_access_rules-perm parse_example site notes_moved notes_perm notes_once
