-- ===== src/OauthClients/Untargeted.antt =====
-- A client that does not target an Authelia, in collectClients of
-- internal/controller/authelia_controller.go.
use heliop.Base.{String, false, Option, none, some, List, [], ◌∷◌, ◌++◌, ◌≡◌, refl, ap}
use heliop.Base.Dict.{Dict}
use heliop.Base.Options.{to_list}
use heliop.Base.Result.{Result}
use heliop.Api.{Authelia, AutheliaOauthClient}
use heliop.OauthClients.{client_targets, listed, collect_clients}

module _ (get : String → String → Result (Dict String)) (a : Authelia) where
  collect_clients-skip :
      (xs ys : List AutheliaOauthClient) (x : AutheliaOauthClient)
      → client_targets x a ≡ false
      → collect_clients get a (xs ++ x ∷ ys) ≡ collect_clients get a (xs ++ ys)
  unfolding collect_clients listed
  collect_clients-skip [] ys x e = rw e refl
  collect_clients-skip (z ∷ xs) ys x e = ap (listed get a z) (collect_clients-skip xs ys x e)

  -- Whether such a client is there makes no difference.
  pub collect_clients-to_list :
      (xs ys : List AutheliaOauthClient) (o : Option AutheliaOauthClient)
      → ((x : AutheliaOauthClient) → o ≡ some x → client_targets x a ≡ false)
      → collect_clients get a (xs ++ (to_list o ++ ys)) ≡ collect_clients get a (xs ++ ys)
  collect_clients-to_list xs ys none h = refl
  collect_clients-to_list xs ys (some x) h = collect_clients-skip xs ys x (h x refl)
