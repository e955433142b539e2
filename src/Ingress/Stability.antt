-- ===== src/Ingress/Stability.antt =====
-- The rules do not depend on the order in which Go iterates over the annotations.
use mathlib.Core.Path.{ap₂}
use heliop.Base.{String, Option, none, some, List, [], ◌∷◌, Perm, ◌≡◌, refl, keep-perm}
use heliop.Base.Dict.{Dict, lookup-perm, keys-perm, HasKeysOnce, String-set}
use heliop.Base.Order.{sort-eq_of_perm}
use heliop.Json.{Value, Object, to_map}
use heliop.Ingress.{
  Ingress, is_rule_annotation, string_at, rule_keys, build_rule, made_rule, rule_from, prepend,
  access_rule, access_rules, rules_for, ingress_domains, ingress_access_rules,
}

module _ (parse : String → Option Value) (ing : Ingress) (other : Dict String)
    (p : Perm ing.annotations other) (once : HasKeysOnce ing.annotations) where
  abbrev moved : Ingress
  moved = record ing { annotations = other }

  string_at-moved : (k : String) → string_at k ing.annotations ≡ string_at k other
  unfolding string_at
  string_at-moved k = rw (lookup-perm String-set k p once, string_at) refl

  rule_keys-moved : rule_keys ing ≡ rule_keys moved
  unfolding rule_keys
  rule_keys-moved = sort-eq_of_perm _ _ (keep-perm is_rule_annotation (keys-perm p))

  module _ (d : String) (ds : List String) where
    rule_from-moved :
        (k : String) (o : Option (Option Object))
        → rule_from ing d ds k o ≡ rule_from moved d ds k o
    unfolding rule_from build_rule made_rule
    rule_from-moved k none = refl
    rule_from-moved k (some none) = refl
    rule_from-moved k (some (some m)) = refl

    access_rule-moved : (k : String) → access_rule parse ing d ds k ≡ access_rule parse moved d ds k
    unfolding access_rule
    access_rule-moved k =
        rw (string_at-moved k) (rule_from-moved k (to_map (parse (string_at k other))))

    access_rules-moved :
        (ks : List String) → access_rules parse ing d ds ks ≡ access_rules parse moved d ds ks
    unfolding access_rules
    access_rules-moved [] = refl
    access_rules-moved (k ∷ ks) = ap₂ prepend (access_rule-moved k) (access_rules-moved ks)

  rules_for-moved : (ds : List String) → rules_for parse ing ds ≡ rules_for parse moved ds
  unfolding rules_for
  rules_for-moved [] = refl
  rules_for-moved (d ∷ ds) = rw (← rule_keys-moved) (access_rules-moved d ds (rule_keys ing))

  -- The rules of an Ingress, their order included, are the same for every order of its annotations,
  -- in particular for each iteration order of the map.
  pub ingress_access_rules-perm : ingress_access_rules parse ing ≡ ingress_access_rules parse moved
  unfolding ingress_access_rules
  ingress_access_rules-perm = rules_for-moved (ingress_domains ing)
