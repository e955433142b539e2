-- ===== src/Ingress/Completeness.antt =====
-- ingressAccessRules of internal/controller/ingress.go: no rule is lost, and when there are none.
use mathlib.Core.List.{mem-cons_self, mem-cons_of_mem}
use heliop.Base.{
  String, Bool, true, false, Option, none, some, List, [], ◌∷◌, Mem, ◌≡◌, ◌≢◌, refl, ◌∙◌, arith,
  eq_refl, contains, keep, contains-perm, Bool-cases, String-cases, inl, inr,
}
use heliop.Base.Dict.{keys, insert}
use heliop.Base.Sort.{sort-perm}
use heliop.Base.Strings.{lt_str}
use heliop.Json.{Value, Object, array, to_iface_slice, to_map}
use heliop.Ingress.{
  Ingress, AccessRule, is_rule_annotation, any_rule_annotation, has_rule_annotations,
  valid_policies, is_set, policy_of, string_at, rule_keys, made_rule, build_rule, prepend,
  access_rule, access_rules, rules_for, ingress_domains, ingress_access_rules, with_domain,
}

module _ (parse : String → Option Value) (ing : Ingress) (d : String) (ds : List String) where
  access_rule-made :
      (k : String) (m : Object)
      → to_map (parse (string_at k ing.annotations)) ≡ some (some m)
      → is_set (policy_of m) valid_policies ≡ true
      → access_rule parse ing d ds k ≡ some (made_rule ing d ds k m)
  unfolding access_rule build_rule
  access_rule-made k m decoded valid = rw (decoded, valid)

  mem-prepend :
      (r : AccessRule) (o : Option AccessRule) (rules : List AccessRule)
      → Mem r rules
      → Mem r (prepend o rules)
  mem-prepend r none rules m = m
  mem-prepend r (some q) rules m = mem-cons_of_mem q m

  access_rules-made :
      (ks : List String) (k : String) (m : Object)
      → contains ks k ≡ true
      → to_map (parse (string_at k ing.annotations)) ≡ some (some m)
      → is_set (policy_of m) valid_policies ≡ true
      → Mem (made_rule ing d ds k m) (access_rules parse ing d ds ks)
  unfolding access_rules
  access_rules-made [] k m h decoded valid = absurd (ground arith)
  access_rules-made (j ∷ ks) k m h decoded valid = elim (String-cases j k) [
    | inl e ↦ rw (e, access_rule-made k m decoded valid) mem-cons_self
    | inr n ↦
        mem-prepend _ (access_rule parse ing d ds j) _
          (access_rules-made ks k m (ground arith) decoded valid)
  ]

contains→keep :
    (p : String → Bool) (ks : List String) (k : String)
    → contains ks k ≡ true
    → p k ≡ true
    → contains (keep p ks) k ≡ true
contains→keep p [] k h e = absurd (ground arith)
contains→keep p (j ∷ ks) k h e = elim (String-cases j k) [
  | inl same ↦ rw same (ground (arith, eq_refl k))
  | inr n ↦
      let ih = contains→keep p ks k (ground arith) e in
      elim (Bool-cases (p j)) [ inl y ↦ rw y (ground arith) | inr f ↦ rw f ih ]
]

contains→rule_keys :
    (ing : Ingress) (k : String)
    → contains (keys ing.annotations) k ≡ true
    → is_rule_annotation k ≡ true
    → contains (rule_keys ing) k ≡ true
unfolding rule_keys
contains→rule_keys ing k h e =
    contains-perm _ _ (sort-perm lt_str _) k
    ∙ contains→keep is_rule_annotation (keys ing.annotations) k h e

rules_for_complete :
    (parse : String → Option Value) (ing : Ingress) (ds : List String) (k : String) (m : Object)
    → ds ≢ []
    → contains (rule_keys ing) k ≡ true
    → to_map (parse (string_at k ing.annotations)) ≡ some (some m)
    → is_set (policy_of m) valid_policies ≡ true
    → (r : AccessRule) × Mem r (rules_for parse ing ds) × (r.rule ≡ with_domain ds m)
unfolding rules_for made_rule
rules_for_complete parse ing [] k m ne h decoded valid = absurd (ne refl)
rules_for_complete parse ing (d ∷ ds) k m ne h decoded valid = (
  made_rule ing d ds k m,
  access_rules-made parse ing d ds (rule_keys ing) k m h decoded valid,
  refl,
)

-- No declared rule is lost: a rule annotation whose value decodes to an object with a valid policy
-- yields a rule, that object with "domain" set to the domains, if the Ingress has a domain.
pub ingress_access_rules_complete :
    (parse : String → Option Value) (ing : Ingress) (k : String) (m : Object)
    → ingress_domains ing ≢ []
    → contains (keys ing.annotations) k ≡ true
    → is_rule_annotation k ≡ true
    → to_map (parse (string_at k ing.annotations)) ≡ some (some m)
    → is_set (policy_of m) valid_policies ≡ true
    → (r : AccessRule) × Mem r (ingress_access_rules parse ing)
      × (r.rule ≡ insert "domain" (array (to_iface_slice (ingress_domains ing))) m)
unfolding ingress_access_rules
ingress_access_rules_complete parse ing k m ne listed is_rule decoded valid =
    rules_for_complete parse ing (ingress_domains ing) k m ne
      (contains→rule_keys ing k listed is_rule) decoded valid

keep-none : (ks : List String) → any_rule_annotation ks ≡ false → keep is_rule_annotation ks ≡ []
unfolding any_rule_annotation
keep-none [] h = refl
keep-none (k ∷ ks) h = ground (arith, keep-none ks)

rule_keys-none : (ing : Ingress) → has_rule_annotations ing ≡ false → rule_keys ing ≡ []
unfolding has_rule_annotations rule_keys
rule_keys-none ing h = rw (keep-none (keys ing.annotations) h)

rules_for-none :
    (parse : String → Option Value) (ing : Ingress) (ds : List String)
    → rule_keys ing ≡ []
    → rules_for parse ing ds ≡ []
unfolding rules_for access_rules
rules_for-none parse ing [] e = refl
rules_for-none parse ing (d ∷ ds) e = rw (e, access_rules)

-- An Ingress that `hasRuleAnnotations` passes over, whose events are therefore dropped, has no rules.
pub ingress_access_rules_opt_in :
    (parse : String → Option Value) (ing : Ingress)
    → has_rule_annotations ing ≡ false
    → ingress_access_rules parse ing ≡ []
unfolding ingress_access_rules
ingress_access_rules_opt_in parse ing h = rules_for-none parse ing _ (rule_keys-none ing h)
