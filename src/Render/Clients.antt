-- ===== src/Render/Clients.antt =====
-- clientToMap and the client list of internal/controller/render.go.
use mathlib.Core.Path.{ap}
use mathlib.Core.List.Perm
use heliop.Base.{
  String, Bool, true, false, not, ◌&&◌, Option, none, some, List, [], ◌∷◌, Perm, Mem, map, if-not,
  ◌≡◌, refl, arith, eq_iff, ◌==◌, contains, if◌then◌else◌,
}
use heliop.Base.Dict.{lookup, lookup-insert, lookup-cons, lookup-nil}
use heliop.Base.Options.{or_else, or_else-none}
use heliop.Base.Order.{str_order}
use heliop.Base.Sort.{IsWeakOrder, sort, sort-perm, sort-IsSorted, IsSorted-eq_of_perm}
use heliop.Base.Strings.{lt_str_total}
use heliop.Json.{Value, bool, str, Object, array, to_iface_slice}
use heliop.Render.{OidcClient, set_text, set_list, set_secret, client_to_map, client_maps, id_less}

-- The value that a client's map has for an optional text, and for an optional list.
abbrev pub text_or_absent : String → Option Value
text_or_absent s = if s == "" then none else some (str s)

abbrev pub list_or_absent : List String → Option Value
list_or_absent [] = none
list_or_absent (s ∷ ss) = some (array (to_iface_slice (s ∷ ss)))

abbrev pub client_keys : List String
client_keys =
    "client_id" ∷ "client_name" ∷ "public" ∷ "client_secret" ∷ "authorization_policy"
    ∷ "consent_mode" ∷ "claims_policy" ∷ "lifespan" ∷ "redirect_uris" ∷ "scopes" ∷ "grant_types"
    ∷ "response_types" ∷ "token_endpoint_auth_method" ∷ "userinfo_signed_response_alg" ∷ []

not_a_key :
    (k : String) (ks : List String) (j : String)
    → contains ks k ≡ true
    → contains ks j ≡ false
    → (k == j) ≡ false
not_a_key k [] j h n = ground arith
not_a_key k (i ∷ ks) j h n = ground (arith, eq_iff i k, eq_iff k j, eq_iff i j, not_a_key k ks j)

lookup-set_text :
    (k s j : String) (m : Object)
    → lookup j (set_text k s m)
      ≡ (if k == j then or_else (text_or_absent s) (lookup j m) else lookup j m)
unfolding set_text
lookup-set_text k s j m = ground (arith, lookup-insert k j (str s) m)

lookup-set_list :
    (k : String) (ss : List String) (j : String) (m : Object)
    → lookup j (set_list k ss m)
      ≡ (if k == j then or_else (list_or_absent ss) (lookup j m) else lookup j m)
unfolding set_list
lookup-set_list k [] j m = ground arith
lookup-set_list k (s ∷ ss) j m = lookup-insert k j (array (to_iface_slice (s ∷ ss))) m

lookup-set_secret :
    (p : Bool) (d j : String) (m : Object)
    → lookup j (set_secret p d m) ≡ (
        if "public" == j && p
        then some (bool true)
        else (if "client_secret" == j && not p then some (str d) else lookup j m))
unfolding set_secret
lookup-set_secret true d j m = ground (arith, lookup-insert "public" j (bool true) m)
lookup-set_secret false d j m = ground (arith, lookup-insert "client_secret" j (str d) m)

ruleset client_fields =
    (lookup-set_text, lookup-set_list, lookup-set_secret, lookup-cons, lookup-nil, or_else-none)

-- The contents of a client's map, key by key.
pub record IsClientMap (c : OidcClient) (m : Object) : Type 0 where
  pub client_id : lookup "client_id" m ≡ some (str c.spec.client_id)
  pub client_name : lookup "client_name" m ≡ text_or_absent c.spec.client_name
  pub public : lookup "public" m ≡ (if c.spec.public then some (bool true) else none)
  pub client_secret :
      lookup "client_secret" m ≡ (if c.spec.public then none else some (str c.secret_digest))
  pub authorization_policy :
      lookup "authorization_policy" m ≡ text_or_absent c.spec.authorization_policy
  pub consent_mode : lookup "consent_mode" m ≡ text_or_absent c.spec.consent_mode
  pub claims_policy : lookup "claims_policy" m ≡ text_or_absent c.spec.claims_policy
  pub lifespan : lookup "lifespan" m ≡ text_or_absent c.spec.lifespan
  pub redirect_uris : lookup "redirect_uris" m ≡ list_or_absent c.spec.redirect_uris
  pub scopes : lookup "scopes" m ≡ list_or_absent c.spec.scopes
  pub grant_types : lookup "grant_types" m ≡ list_or_absent c.spec.grant_types
  pub response_types : lookup "response_types" m ≡ list_or_absent c.spec.response_types
  pub token_endpoint_auth_method :
      lookup "token_endpoint_auth_method" m ≡ text_or_absent c.spec.token_endpoint_auth_method
  pub userinfo_signed_response_alg :
      lookup "userinfo_signed_response_alg" m ≡ text_or_absent c.spec.userinfo_signed_response_alg
  pub others : (j : String) → contains client_keys j ≡ false → lookup j m ≡ none

client_to_map-others :
    (c : OidcClient) (j : String)
    → contains client_keys j ≡ false
    → lookup j (client_to_map c) ≡ none
unfolding client_to_map
client_to_map-others c j h =
    let n = λ (k : String) (i : contains client_keys k ≡ true). not_a_key k client_keys j i h in
    simp (
      client_fields,
      n "client_id" refl,
      n "client_name" refl,
      n "public" refl,
      n "client_secret" refl,
      n "authorization_policy" refl,
      n "consent_mode" refl,
      n "claims_policy" refl,
      n "lifespan" refl,
      n "redirect_uris" refl,
      n "scopes" refl,
      n "grant_types" refl,
      n "response_types" refl,
      n "token_endpoint_auth_method" refl,
      n "userinfo_signed_response_alg" refl,
    )

-- What a client's map holds: the ID; for a public client the flag and no secret, for a confidential
-- one the digest and no flag; each optional field that is not empty; and no other key.
pub client_to_map_lem : (c : OidcClient) → IsClientMap c (client_to_map c)
unfolding client_to_map
client_to_map_lem c = record {
  client_id = simp client_fields;
  client_name = simp client_fields;
  public = simp client_fields;
  client_secret = simp client_fields (if-not c.spec.public _ _);
  authorization_policy = simp client_fields;
  consent_mode = simp client_fields;
  claims_policy = simp client_fields;
  lifespan = simp client_fields;
  redirect_uris = simp client_fields;
  scopes = simp client_fields;
  grant_types = simp client_fields;
  response_types = simp client_fields;
  token_endpoint_auth_method = simp client_fields;
  userinfo_signed_response_alg = simp client_fields;
  others = unfold client_to_map in client_to_map-others c;
}

pub id_order : IsWeakOrder id_less
id_order = record {
  asym = λ a b. str_order.asym a.spec.client_id b.spec.client_id;
  le_trans = λ a b c. str_order.le_trans a.spec.client_id b.spec.client_id c.spec.client_id;
}

-- The rendered client list does not depend on the order in which the API lists the clients, if
-- clients with one ID are the same client.
pub client_maps-perm :
    (clients others : List OidcClient)
    → Perm clients others
    → ((a b : OidcClient)
        → Mem a clients
        → Mem b clients
        → a.spec.client_id ≡ b.spec.client_id
        → a ≡ b)
    → client_maps clients ≡ client_maps others
unfolding client_maps
client_maps-perm clients others p distinct = ap (map _) (
    IsSorted-eq_of_perm id_less id_order _ _
      (λ a b m n h k. distinct a b (in_list m) (in_list n) (lt_str_total _ _ h k))
      (sort-IsSorted id_less id_order clients) (sort-IsSorted id_less id_order others)
      (Perm.trans (sort-perm id_less clients)
        (Perm.trans p (Perm.symm (sort-perm id_less others)))))
  where
    in_list : {a : OidcClient} → Mem a (sort id_less clients) → Mem a clients
    in_list m = (Perm.mem_iff (sort-perm id_less clients)).0 m
