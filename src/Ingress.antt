-- ===== src/Ingress.antt =====
-- internal/controller/ingress.go: access_control rules from Ingress annotations.
-- `parse` stands for the parser of `encoding/json`: the value of a text, `none` on a syntax error.
pub mod Collect
pub mod Completeness
pub mod Domains
pub mod Ignored
pub mod Ordering
pub mod Rules
pub mod Stability
pub mod Tests
use Prim.Native.String.{len}
use heliop.Base.{
  ℕ, String, ◌<>◌, Bool, true, false, ◌||◌, bool_ne, not, keep, Option, none, some, List, [], ◌∷◌,
  ◌++◌, ◌==◌, ltb, nat_eq, if◌then◌else◌,
}
use heliop.Base.Dict.{Dict, keys, lookup, insert}
use heliop.Base.Sort.{sort}
use heliop.Base.Strings.{lt_str, has_prefix}
use heliop.Json.{Value, str, arr, Object, elems, array, to_iface_slice, to_map}

-- The parts of `networkingv1.Ingress` that the program reads.
pub record IngressRule : Type 0 where
  pub host : String

pub record IngressTls : Type 0 where
  pub hosts : List String

pub record Ingress : Type 0 where
  pub namespace : String
  pub name : String
  pub annotations : Dict String
  pub rules : List IngressRule
  pub tls : List IngressTls

pub record AccessRule : Type 0 where
  pub resource_len : ℕ
  pub wildcard : Bool
  pub key : String
  pub rule : Object

abbrev pub rule_annotation : String
rule_annotation = "heliop/rule"

abbrev pub valid_policies : Dict Bool
valid_policies =
    ("bypass", true) ∷ ("one_factor", true) ∷ ("two_factor", true) ∷ ("deny", true) ∷ []

-- `m[k]` of a `map[string]bool`: false for a missing key.
pub is_set : String → Dict Bool → Bool
unfolding lookup
is_set k m = elim (lookup k m) [ none ↦ false | some b ↦ b ]

unfoldable pub is_rule_annotation : String → Bool
is_rule_annotation key = key == rule_annotation || has_prefix key (rule_annotation <> "-")

any_rule_annotation : List String → Bool
any_rule_annotation [] = false
any_rule_annotation (k ∷ ks) = is_rule_annotation k || any_rule_annotation ks

unfoldable pub has_rule_annotations : Ingress → Bool
unfolding any_rule_annotation
has_rule_annotations ing = any_rule_annotation (keys ing.annotations)

-- The two variables that the closure `add` of `ingressDomains` writes.
pub record HostSet : Type 0 where
  pub seen : Dict Bool
  pub domains : List String

add : HostSet → String → HostSet
unfolding is_set insert
add d h =
    if h == "" || is_set h d.seen
    then d
    else record { seen = insert h true d.seen; domains = d.domains ++ h ∷ [] }

add_hosts : HostSet → List String → HostSet
unfolding add
add_hosts d [] = d
add_hosts d (h ∷ hs) = add_hosts (add d h) hs

add_rules : HostSet → List IngressRule → HostSet
unfolding add
add_rules d [] = d
add_rules d (r ∷ rs) = add_rules (add d r.host) rs

add_tls : HostSet → List IngressTls → HostSet
unfolding add_hosts
add_tls d [] = d
add_tls d (t ∷ ts) = add_tls (add_hosts d t.hosts) ts

unfoldable pub ingress_domains : Ingress → List String
unfolding add_rules add_tls sort
ingress_domains ing =
    let d = add_tls (add_rules (record { seen = []; domains = [] }) ing.rules) ing.tls in
    sort lt_str d.domains

longer : ℕ → String → ℕ
longer max s = if ltb max (len s) then len s else max

-- The loop of `resourceLen` over a list of patterns.
max_len : ℕ → List Value → ℕ
unfolding longer
max_len max [] = max
max_len max (str s ∷ vs) = max_len (longer max s) vs
max_len max (_ ∷ vs) = max_len max vs

resource_len_of : Option Value → ℕ
unfolding max_len
resource_len_of (some (arr vs)) = max_len 0 (elems vs)
resource_len_of (some (str s)) = len s
resource_len_of _ = 0

unfoldable pub resource_len : Object → ℕ
unfolding resource_len_of lookup
resource_len rule = resource_len_of (lookup "resources" rule)

-- `m["policy"].(string)`, or "" where that is missing or no string, also in a nil map.
string_or_empty : Option Value → String
string_or_empty (some (str s)) = s
string_or_empty _ = ""

any_wildcard : List String → Bool
unfolding has_prefix
any_wildcard [] = false
any_wildcard (d ∷ ds) = has_prefix d "*" || any_wildcard ds

unfoldable pub policy_of : Object → String
unfolding string_or_empty lookup
policy_of m = string_or_empty (lookup "policy" m)

-- The sort function's `less`.
unfoldable pub rule_less : AccessRule → AccessRule → Bool
rule_less a b =
    if nat_eq a.resource_len b.resource_len
    then (if bool_ne a.wildcard b.wildcard then not a.wildcard else lt_str a.key b.key)
    else ltb b.resource_len a.resource_len

unfoldable pub sort_access_rules : List AccessRule → List AccessRule
unfolding sort rule_less
sort_access_rules = sort rule_less

-- `ing.Annotations[k]`
unfoldable pub string_at : String → Dict String → String
unfolding lookup
string_at k m = elim (lookup k m) [ none ↦ "" | some s ↦ s ]

unfoldable pub rule_keys : Ingress → List String
unfolding sort
rule_keys ing = sort lt_str (keep is_rule_annotation (keys ing.annotations))

abbrev with_domain : List String → Object → Object
with_domain domains m = insert "domain" (array (to_iface_slice domains)) m

-- The rule that a round of the loop of `ingressAccessRules` appends.
made_rule : Ingress → String → List String → String → Object → AccessRule
unfolding insert resource_len any_wildcard
made_rule ing d ds k m = record {
  resource_len = resource_len (with_domain (d ∷ ds) m);
  wildcard = any_wildcard (d ∷ ds);
  key = d <> "/" <> ing.namespace <> "/" <> ing.name <> "/" <> k;
  rule = with_domain (d ∷ ds) m;
}

-- The end of such a round, for a decoded annotation; `none` is a `continue`. The domains are
-- `d ∷ ds`.
build_rule : Ingress → String → List String → String → Object → Option AccessRule
unfolding is_set policy_of made_rule
build_rule ing d ds k m =
    if is_set (policy_of m) valid_policies then some (made_rule ing d ds k m) else none

-- A round from the result of `json.Unmarshal`. A nil map has no valid policy.
rule_from : Ingress → String → List String → String → Option (Option Object) → Option AccessRule
unfolding build_rule
rule_from ing d ds k none = none
rule_from ing d ds k (some none) = none
rule_from ing d ds k (some (some m)) = build_rule ing d ds k m

abbrev prepend : Option AccessRule → List AccessRule → List AccessRule
prepend none rules = rules
prepend (some r) rules = r ∷ rules

module _ (parse : String → Option Value) where
  access_rule : Ingress → String → List String → String → Option AccessRule
  unfolding string_at rule_from
  access_rule ing d ds k = rule_from ing d ds k (to_map (parse (string_at k ing.annotations)))

  access_rules : Ingress → String → List String → List String → List AccessRule
  unfolding access_rule
  access_rules ing d ds [] = []
  access_rules ing d ds (k ∷ ks) = prepend (access_rule ing d ds k) (access_rules ing d ds ks)

  rules_for : Ingress → List String → List AccessRule
  unfolding access_rules rule_keys
  rules_for ing [] = []
  rules_for ing (d ∷ ds) = access_rules ing d ds (rule_keys ing)

  unfoldable pub ingress_access_rules : Ingress → List AccessRule
  unfolding rules_for ingress_domains
  ingress_access_rules ing = rules_for ing (ingress_domains ing)
