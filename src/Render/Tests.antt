-- ===== src/Render/Tests.antt =====
-- Runs of internal/controller/render.go on examples, and the theorems at them.
use mathlib.Core.List.{mem-cons, not-mem-nil}
use mathlib.Core.List.Perm
use mathlib.Core.Logic.Or
use mathlib.Core.Logic.{◌∨₁◌}
use heliop.Base.Dict.{String-set}
use heliop.Base.{
  String, Bool, true, false, Option, none, some, List, [], ◌∷◌, Perm, Mem, ◌≡◌, refl, sym, ap, ◌∙◌,
  ◌==◌, arith, eq_iff, if◌then◌else◌,
}
use heliop.Base.Result.{ok, err, panic, parsing_additional_config}
use heliop.Json.{Value, number, str, Object, object, array, fields}
use heliop.Api.{AutheliaSettings}
use heliop.Render.{OidcClient, client_to_map, layer, base_root, marshalled, render_config}
use heliop.Render.Clients.{IsClientMap, client_to_map_lem}
use heliop.Render.Errors.{
  is_object_config, render_config_object, render_config_invalid, render_config_null,
  render_config-perm,
}
use heliop.Render.Layers.{IsLayered, layer_lem}

abbrev client : String → Bool → OidcClient
client id public = record {
  spec = record {
    authelia_ref = record { name = "main"; namespace = "" };
    client_id = id;
    client_name = "";
    public = public;
    authorization_policy = "two_factor";
    consent_mode = "";
    claims_policy = "";
    lifespan = "";
    redirect_uris = "https://app.example.org/cb" ∷ [];
    scopes = [];
    grant_types = [];
    response_types = [];
    token_endpoint_auth_method = "";
    userinfo_signed_response_alg = "";
  };
  secret_digest = "digest";
}

abbrev two_clients : List OidcClient
two_clients = client "grafana" false ∷ client "argocd" true ∷ []

abbrev swapped_clients : List OidcClient
swapped_clients = client "argocd" true ∷ client "grafana" false ∷ []

abbrev settings_of : String → AutheliaSettings
settings_of raw = record {
  additional_config = some raw;
  file_users_secret = some (record { name = "users"; key = "users.yml" });
  secrets = [];
}

abbrev base : Object
base =
    ("access_control", object (("rules", array (object (("policy", str "deny") ∷ []) ∷ [])) ∷ []))
    ∷ ("theme", str "dark")
    ∷ []

abbrev parse_example : String → Option Value
parse_example s =
    if s == "{}"
    then some (object base)
    else if s == "null"
    then some Value.null
    else if s == "7"
    then some (number "7")
    else none

-- A printer that gives the theme, and fails on a nil map.
abbrev marshal_example : Option Object → Option String
marshal_example none = none
marshal_example (some m) = some "theme: dark"

abbrev one_rule : List Object
one_rule = (("policy", str "bypass") ∷ []) ∷ []

render_run :
    render_config parse_example marshal_example
      (settings_of "{}")
      two_clients
      one_rule
      "auth.example.org"
    ≡ ok "theme: dark"
unfolding render_config base_root layer
render_run = refl

layer_lem_example :
    (r : Object) × (layer (settings_of "{}") two_clients one_rule "auth.example.org" (some base)
      ≡ ok (some r))
    × IsLayered (settings_of "{}") two_clients one_rule "auth.example.org" base r
layer_lem_example = layer_lem (settings_of "{}") two_clients one_rule "auth.example.org" base

client_to_map_lem_example :
    IsClientMap (client "grafana" false) (client_to_map (client "grafana" false))
client_to_map_lem_example = client_to_map_lem (client "grafana" false)

render_config_object_example :
    (r : Object) × IsLayered (settings_of "{}") two_clients one_rule "auth.example.org" base r
    × (render_config parse_example marshal_example
          (settings_of "{}")
          two_clients
          one_rule
          "auth.example.org"
        ≡ marshalled (marshal_example (some r)))
render_config_object_example =
    render_config_object parse_example marshal_example (settings_of "{}") two_clients one_rule
      "auth.example.org" base
      (is_object_config "{}" (fields base) (ground (arith, eq_iff "{}" "")) refl)

render_config_invalid_example :
    render_config parse_example marshal_example
      (settings_of "7")
      two_clients
      one_rule
      "auth.example.org"
    ≡ err parsing_additional_config
render_config_invalid_example =
    render_config_invalid parse_example marshal_example (settings_of "7") two_clients one_rule
      "auth.example.org" "7" refl (ground (arith, eq_iff "7" "")) tt

render_config_null_example :
    render_config parse_example marshal_example
      (settings_of "null")
      two_clients
      one_rule
      "auth.example.org"
    ≡ panic
render_config_null_example =
    render_config_null parse_example marshal_example (settings_of "null") two_clients one_rule
      "auth.example.org" "null" refl (ground (arith, eq_iff "null" "")) refl

two_clients_swapped : Perm two_clients swapped_clients
two_clients_swapped = Perm.swap (client "argocd" true) (client "grafana" false) []

OidcClient-set : IsSet OidcClient
OidcClient-set = hlevel String-set

abbrev id_of : OidcClient → String
id_of c = c.spec.client_id

two_clients_cases :
    (a : OidcClient)
    → Mem a two_clients
    → (a ≡ client "grafana" false) ∨₁ (a ≡ client "argocd" true)
two_clients_cases a m =
    Or.imp (λ e. e)
      (λ n. Or.elim (OidcClient-set _ _) (mem-cons.0 n) (λ e. e) (λ k. absurd (not-mem-nil k)))
      (mem-cons.0 m)

-- Clients of different IDs, so two of one ID are the same.
two_clients_differ :
    (a b : OidcClient)
    → Mem a two_clients
    → Mem b two_clients
    → a.spec.client_id ≡ b.spec.client_id
    → a ≡ b
two_clients_differ a b m n e =
    Or.elim (OidcClient-set a b) (two_clients_cases a m)
      (λ p.
        Or.elim (OidcClient-set a b) (two_clients_cases b n) (λ q. p ∙ sym q)
          (λ q.
            let bad : "grafana" ≡ "argocd" = ap id_of (sym p) ∙ e ∙ ap id_of q in
            absurd (ground (arith, eq_iff "grafana" "argocd"))))
      (λ p.
        Or.elim (OidcClient-set a b) (two_clients_cases b n)
          (λ q.
            let bad : "argocd" ≡ "grafana" = ap id_of (sym p) ∙ e ∙ ap id_of q in
            absurd (ground (arith, eq_iff "argocd" "grafana")))
          (λ q. p ∙ sym q))

render_config-perm_example :
    render_config parse_example marshal_example
      (settings_of "{}")
      two_clients
      one_rule
      "auth.example.org"
    ≡ render_config parse_example marshal_example
        (settings_of "{}")
        swapped_clients
        one_rule
        "auth.example.org"
render_config-perm_example =
    render_config-perm parse_example marshal_example (settings_of "{}") two_clients swapped_clients
      one_rule "auth.example.org" two_clients_swapped two_clients_differ
