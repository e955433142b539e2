-- ===== src/Ingress/Ignored.antt =====
-- An Ingress without rules, in collectIngressRules of internal/controller/authelia_controller.go.
use heliop.Base.{String, Option, none, some, List, [], ◌∷◌, ◌++◌, ◌≡◌, refl, ap}
use heliop.Base.Options.{to_list}
use heliop.Base.Result.{ok}
use heliop.Json.{Value}
use heliop.Ingress.{Ingress, ingress_access_rules}
use heliop.Ingress.Collect.{all_rules, collect_ingress_rules}

module _ (parse : String → Option Value) where
  all_rules-skip :
      (xs ys : List Ingress) (x : Ingress)
      → ingress_access_rules parse x ≡ []
      → all_rules parse (xs ++ x ∷ ys) ≡ all_rules parse (xs ++ ys)
  unfolding all_rules
  all_rules-skip [] ys x e = rw e refl
  all_rules-skip (z ∷ xs) ys x e =
      ap (λ rules. ingress_access_rules parse z ++ rules) (all_rules-skip xs ys x e)

  collect_ingress_rules-all_rules :
      (is js : List Ingress)
      → all_rules parse is ≡ all_rules parse js
      → collect_ingress_rules parse (ok is) ≡ collect_ingress_rules parse (ok js)
  unfolding collect_ingress_rules
  collect_ingress_rules-all_rules is js e = rw e refl

  -- Whether such an Ingress is there makes no difference.
  pub collect_ingress_rules-to_list :
      (xs ys : List Ingress) (o : Option Ingress)
      → ((x : Ingress) → o ≡ some x → ingress_access_rules parse x ≡ [])
      → collect_ingress_rules parse (ok (xs ++ (to_list o ++ ys)))
        ≡ collect_ingress_rules parse (ok (xs ++ ys))
  collect_ingress_rules-to_list xs ys none h = refl
  collect_ingress_rules-to_list xs ys (some x) h =
      collect_ingress_rules-all_rules _ _ (all_rules-skip xs ys x (h x refl))
