-- ===== src/Render.antt =====
-- internal/controller/render.go: the Authelia configuration as a tree of maps, and its text.
-- The root is a Go map that may be nil (`none`); a write to a nil map panics. The tree that
-- `json.Unmarshal` builds has no sharing, so a write through `childMap` is a functional update.
-- `parse` is the parser of `encoding/json`; `marshal` is `yaml.Marshal`, `none` on an error.
pub mod Clients
pub mod Errors
pub mod Layered
pub mod Layers
pub mod ParentDomain
pub mod Trees
pub mod Tests
pub mod Writes
use Prim.Native.Char.{code}
use Prim.Native.String.{[] as empty, ◌∷◌ as ◌+>◌}
use heliop.Base.{
  String, ◌<>◌, Bool, true, Option, none, some, List, [], ◌∷◌, ◌++◌, map, ◌==◌, nat_eq,
  if◌then◌else◌,
}
use heliop.Base.Dict.{lookup, insert}
use heliop.Base.Result.{
  Result, ok, err, panic, parsing_additional_config, marshalling_config, ◌>>=◌,
}
use heliop.Base.Sort.{sort}
use heliop.Base.Strings.{lt_str}
use heliop.Json.{
  Value, bool, str, obj, Object, props, list_of, object, array, to_iface_slice, to_map,
}
use heliop.Names.{file_users_path}
use heliop.Api.{SecretKeyRef, AutheliaSettings, AutheliaOauthClientSpec}

pub record OidcClient : Type 0 where
  pub spec : AutheliaOauthClientSpec
  pub secret_digest : String

-- `if s != "" { m[key] = s }`
set_text : String → String → Object → Object
unfolding insert
set_text key s m = if s == "" then m else insert key (str s) m

-- `if len(ss) > 0 { m[key] = toIfaceSlice(ss) }`
set_list : String → List String → Object → Object
unfolding insert
set_list key [] m = m
set_list key (s ∷ ss) m = insert key (array (to_iface_slice (s ∷ ss))) m

-- `if c.spec.Public { … } else { … }`
set_secret : Bool → String → Object → Object
unfolding insert
set_secret public digest m =
    if public then insert "public" (bool true) m else insert "client_secret" (str digest) m

unfoldable pub client_to_map : OidcClient → Object
unfolding set_text set_list set_secret
client_to_map c =
    let s = c.spec in
    let m0 : Object = ("client_id", str s.client_id) ∷ [] in
    let m1 = set_secret s.public c.secret_digest (set_text "client_name" s.client_name m0) in
    let m2 = set_text "authorization_policy" s.authorization_policy m1 in
    let m3 = set_text "consent_mode" s.consent_mode m2 in
    let m4 = set_text "claims_policy" s.claims_policy m3 in
    let m5 = set_text "lifespan" s.lifespan m4 in
    let m6 = set_list "redirect_uris" s.redirect_uris m5 in
    let m7 = set_list "scopes" s.scopes m6 in
    let m8 = set_list "grant_types" s.grant_types m7 in
    let m9 = set_list "response_types" s.response_types m8 in
    let m10 = set_text "token_endpoint_auth_method" s.token_endpoint_auth_method m9 in
    set_text "userinfo_signed_response_alg" s.userinfo_signed_response_alg m10

-- `v.(map[string]any)`, or an empty map
as_map : Option Value → Object
as_map (some (obj fs)) = props fs
as_map _ = []

-- What `childMap` returns.
unfoldable pub child_map : String → Object → Object
unfolding as_map lookup
child_map key parent = as_map (lookup key parent)

-- `childMap`, and writes to the map that it returns.
unfoldable pub update_child : String → (Object → Object) → Object → Object
unfolding child_map insert
update_child key f parent = insert key (object (f (child_map key parent))) parent

-- Writes to the root; a nil map panics.
unfoldable pub on_root : (Object → Object) → Option Object → Result (Option Object)
on_root f none = panic
on_root f (some m) = ok (some (f m))

abbrev pub set_path : SecretKeyRef → Object → Object
set_path ref = insert "path" (str (file_users_path ref))

unfoldable pub apply_file_backend : Option SecretKeyRef → Option Object → Result (Option Object)
unfolding update_child on_root
apply_file_backend none root = ok root
apply_file_backend (some ref) root =
    on_root (update_child "authentication_backend" (update_child "file" (set_path ref))) root

-- `hostname[i+1:]` for the first dot, if there is one.
after_dot : String → Option String
after_dot empty = none
after_dot (c +> s) = let rest = after_dot s in if nat_eq (code c) b'.' then some s else rest

rest_or : String → Option String → String
rest_or hostname none = hostname
rest_or hostname (some empty) = hostname
rest_or hostname (some (c +> s)) = c +> s

-- A dot at the very end leaves the hostname unchanged.
unfoldable pub parent_domain : String → String
unfolding after_dot rest_or
parent_domain hostname = rest_or hostname (after_dot hostname)

abbrev pub default_cookie : String → Value
default_cookie hostname =
    object (
      ("domain", str (parent_domain hostname))
      ∷ ("authelia_url", str ("https://" <> hostname))
      ∷ [])

-- `if _, ok := session["cookies"]; !ok { … }`
pub add_cookies : String → Object → Object
unfolding lookup insert
add_cookies hostname session = elim (lookup "cookies" session) [
  | some _ ↦ session
  | none ↦ insert "cookies" (array (default_cookie hostname ∷ [])) session
]

unfoldable pub apply_session : String → Option Object → Result (Option Object)
unfolding update_child on_root add_cookies
apply_session hostname root =
    if hostname == "" then ok root else on_root (update_child "session" (add_cookies hostname)) root

pub prepend_rules : List Object → Object → Object
unfolding lookup insert
prepend_rules rules ac = insert "rules" (array (map object rules ++ list_of (lookup "rules" ac))) ac

unfoldable pub apply_rules : List Object → Option Object → Result (Option Object)
unfolding update_child on_root prepend_rules
apply_rules [] root = ok root
apply_rules (r ∷ rs) root = on_root (update_child "access_control" (prepend_rules (r ∷ rs))) root

abbrev pub id_less : OidcClient → OidcClient → Bool
id_less a b = lt_str a.spec.client_id b.spec.client_id

-- `sort.Slice` is taken as an insertion sort, which it is on up to twelve clients. It may order
-- clients of one ID otherwise on more; with distinct IDs there is one sorted order.
unfoldable pub client_maps : List OidcClient → List Value
unfolding sort client_to_map
client_maps clients = map (λ c. object (client_to_map c)) (sort id_less clients)

pub set_clients : List OidcClient → Object → Object
unfolding insert client_maps
set_clients clients = insert "clients" (array (client_maps clients))

unfoldable pub apply_clients : List OidcClient → Option Object → Result (Option Object)
unfolding update_child on_root set_clients
apply_clients [] root = ok root
apply_clients (c ∷ cs) root =
    on_root (update_child "identity_providers" (update_child "oidc" (set_clients (c ∷ cs)))) root

-- The writes of `renderConfig`, in its order.
unfoldable pub layer :
    AutheliaSettings
    → List OidcClient
    → List Object
    → String
    → Option Object
    → Result (Option Object)
unfolding apply_file_backend apply_session apply_rules apply_clients
layer settings clients rules hostname root = do
  r1 ← apply_file_backend settings.file_users_secret root
  r2 ← apply_session hostname r1
  r3 ← apply_rules rules r2
  apply_clients clients r3

decoded : Option (Option Object) → Result (Option Object)
decoded none = err parsing_additional_config
decoded (some root) = ok root

pub marshalled : Option String → Result String
marshalled none = err marshalling_config
marshalled (some text) = ok text

-- `additionalConfig` as the base of the tree.
unfoldable pub base_root : (String → Option Value) → Option String → Result (Option Object)
unfolding decoded
base_root parse none = ok (some [])
base_root parse (some raw) = if raw == "" then ok (some []) else decoded (to_map (parse raw))

module _ (parse : String → Option Value) (marshal : Option Object → Option String) where
  unfoldable pub render_config :
      AutheliaSettings → List OidcClient → List Object → String → Result String
  unfolding base_root layer marshalled
  render_config settings clients rules hostname = do
    base ← base_root parse settings.additional_config
    root ← layer settings clients rules hostname base
    marshalled (marshal root)
