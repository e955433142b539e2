-- ===== src/Ingress/Rules.antt =====
-- ingressAccessRules of internal/controller/ingress.go: which rules there are, and what is in them.
use mathlib.Core.Path.{subst}
use mathlib.Core.Option.{some-injective, none-ne-some}
use heliop.Base.{
  String, Bool, true, Option, none, some, List, [], ◌∷◌, ◌≡◌, ◌≢◌, refl, sym, ◌∙◌, arith, eq_iff,
  eq_refl, All, contains, keep, contains-perm, Option-cases, Bool-cases, inl, inr,
}
use heliop.Base.Dict.{keys, lookup, insert, lookup-insert}
use heliop.Base.Sort.{sort-perm}
use heliop.Base.Strings.{lt_str}
use heliop.Json.{Value, Object, array, to_iface_slice, to_map}
use heliop.Ingress.{
  Ingress, AccessRule, is_rule_annotation, valid_policies, is_set, policy_of, string_at, rule_keys,
  made_rule, rule_from, build_rule, access_rule, access_rules, rules_for, ingress_domains,
  ingress_access_rules, with_domain, resource_len,
}

-- Where a rule comes from: an annotation `k` of the Ingress with the decoded value `m`.
pub record IsDerived (parse : String → Option Value) (ing : Ingress) (r : AccessRule) : Type 0 where
  pub k : String
  pub m : Object
  pub listed : contains (keys ing.annotations) k ≡ true
  pub is_rule : is_rule_annotation k ≡ true
  pub decoded : to_map (parse (string_at k ing.annotations)) ≡ some (some m)
  pub valid : is_set (policy_of r.rule) valid_policies ≡ true
  pub forced : lookup "domain" r.rule ≡ some (array (to_iface_slice (ingress_domains ing)))
  pub others : (j : String) → j ≢ "domain" → lookup j r.rule ≡ lookup j m
  pub sort_key : r.resource_len ≡ resource_len m

contains-keep :
    (p : String → Bool) (ks : List String) (k : String)
    → contains (keep p ks) k ≡ true
    → (contains ks k ≡ true) × (p k ≡ true)
contains-keep p [] k h = ground arith
contains-keep p (j ∷ ks) k h = ground (arith, eq_iff j k, contains-keep p ks k)

contains-rule_keys :
    (ing : Ingress) (k : String)
    → contains (rule_keys ing) k ≡ true
    → (contains (keys ing.annotations) k ≡ true) × (is_rule_annotation k ≡ true)
unfolding rule_keys
contains-rule_keys ing k h =
    contains-keep is_rule_annotation (keys ing.annotations) k
      (sym (contains-perm _ _ (sort-perm lt_str _) k) ∙ h)

insert-others :
    (v : Value) (m : Object) (j : String)
    → j ≢ "domain"
    → lookup j (insert "domain" v m) ≡ lookup j m
insert-others v m j h = rw lookup-insert (ground (arith, eq_iff "domain" j))

module _ (parse : String → Option Value) (ing : Ingress) (d : String) (ds : List String)
    (same : ingress_domains ing ≡ d ∷ ds) where
  abbrev after : Object → Object
  after m = with_domain (d ∷ ds) m

  policy_of-after : (m : Object) → policy_of (after m) ≡ policy_of m
  unfolding policy_of
  policy_of-after m = rw (insert-others _ m "policy" (ground (arith, eq_iff "policy" "domain")))

  resource_len-after : (m : Object) → resource_len (after m) ≡ resource_len m
  unfolding resource_len
  resource_len-after m =
      rw (insert-others _ m "resources" (ground (arith, eq_iff "resources" "domain")))

  made_rule-IsDerived :
      (k : String) (m : Object)
      → contains (rule_keys ing) k ≡ true
      → to_map (parse (string_at k ing.annotations)) ≡ some (some m)
      → is_set (policy_of m) valid_policies ≡ true
      → IsDerived parse ing (made_rule ing d ds k m)
  unfolding made_rule
  made_rule-IsDerived k m listed decoded valid = record {
    k = k;
    m = m;
    listed = (contains-rule_keys ing k listed).0;
    is_rule = (contains-rule_keys ing k listed).1;
    decoded = decoded;
    valid = rw (policy_of-after m) valid;
    forced = rw (lookup-insert, same) refl;
    others = insert-others _ m;
    sort_key = resource_len-after m;
  }

  build_rule-IsDerived :
      (k : String) (m : Object) (r : AccessRule)
      → contains (rule_keys ing) k ≡ true
      → to_map (parse (string_at k ing.annotations)) ≡ some (some m)
      → build_rule ing d ds k m ≡ some r
      → IsDerived parse ing r
  unfolding build_rule
  build_rule-IsDerived k m r listed decoded e =
      elim (Bool-cases (is_set (policy_of m) valid_policies)) [
        | inl ok ↦
            subst (IsDerived parse ing) (some-injective _ _ (rw ok at e))
              (made_rule-IsDerived k m listed decoded ok)
        | inr bad ↦ absurd (none-ne-some r (rw bad at e))
      ]

  rule_from-IsDerived :
      (k : String) (o : Option (Option Object)) (r : AccessRule)
      → contains (rule_keys ing) k ≡ true
      → to_map (parse (string_at k ing.annotations)) ≡ o
      → rule_from ing d ds k o ≡ some r
      → IsDerived parse ing r
  unfolding rule_from
  rule_from-IsDerived k none r listed decoded e = absurd (none-ne-some r e)
  rule_from-IsDerived k (some none) r listed decoded e = absurd (none-ne-some r e)
  rule_from-IsDerived k (some (some m)) r listed decoded e =
      build_rule-IsDerived k m r listed decoded e

  access_rules-IsDerived :
      (ks : List String)
      → ((k : String) → contains ks k ≡ true → contains (rule_keys ing) k ≡ true)
      → All (IsDerived parse ing) (access_rules parse ing d ds ks)
  unfolding access_rules
  access_rules-IsDerived [] sub = tt
  access_rules-IsDerived (k ∷ ks) sub =
      let rest = access_rules-IsDerived ks (λ j h. sub j (ground arith)) in
      elim (Option-cases (access_rule parse ing d ds k)) [
        | inl e ↦ rw e rest
        | inr (r, e) ↦ rw e (
          unfold access_rule in
              rule_from-IsDerived k _ r (sub k (ground (arith, eq_refl k))) refl e,
          rest,
        )
      ]

rules_for-IsDerived :
    (parse : String → Option Value) (ing : Ingress) (ds : List String)
    → ingress_domains ing ≡ ds
    → All (IsDerived parse ing) (rules_for parse ing ds)
unfolding rules_for
rules_for-IsDerived parse ing [] same = tt
rules_for-IsDerived parse ing (d ∷ ds) same =
    access_rules-IsDerived parse ing d ds same (rule_keys ing) (λ k h. h)

-- Every rule of an Ingress comes from one of its rule annotations: the annotation decodes to an
-- object, the policy is one of the four valid ones, "domain" is the list of the Ingress' domains
-- whatever the annotation says there, and each other key is as in the annotation.
pub ingress_access_rules-IsDerived :
    (parse : String → Option Value) (ing : Ingress)
    → All (IsDerived parse ing) (ingress_access_rules parse ing)
unfolding ingress_access_rules
ingress_access_rules-IsDerived parse ing = rules_for-IsDerived parse ing (ingress_domains ing) refl
