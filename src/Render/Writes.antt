-- ===== src/Render/Writes.antt =====
-- The writes of renderConfig in internal/controller/render.go, one section of the tree each.
use heliop.Base.{
  String, Bool, true, false, Option, none, Bool-cases, inl, inr, some, List, [], ◌∷◌, ◌≡◌, refl,
  ◌==◌, if◌then◌else◌,
}
use heliop.Base.Dict.{lookup}
use heliop.Json.{Object, object}
use heliop.Api.{SecretKeyRef}
use heliop.Render.{
  OidcClient, child_map, update_child, set_path, add_cookies, prepend_rules, set_clients,
}
use heliop.Render.Trees.{lookup-update_child, child_map-update_child, update_child_value}

-- The writes to a root that is not nil, as functions on maps.
abbrev pub file_written : Option SecretKeyRef → Object → Object
file_written none m = m
file_written (some ref) m =
    update_child "authentication_backend" (update_child "file" (set_path ref)) m

abbrev pub session_written : String → Object → Object
session_written hostname m =
    if hostname == "" then m else update_child "session" (add_cookies hostname) m

abbrev pub rules_written : List Object → Object → Object
rules_written [] m = m
rules_written (r ∷ rs) m = update_child "access_control" (prepend_rules (r ∷ rs)) m

abbrev pub clients_written : List OidcClient → Object → Object
clients_written [] m = m
clients_written (c ∷ cs) m =
    update_child "identity_providers" (update_child "oidc" (set_clients (c ∷ cs))) m

abbrev pub sections : List String
sections = "authentication_backend" ∷ "session" ∷ "access_control" ∷ "identity_providers" ∷ []

-- What a write leaves alone: each key but the one of its section.
module _ (k : String) (m : Object) where
  pub lookup-file_written :
      (ref : Option SecretKeyRef)
      → ("authentication_backend" == k) ≡ false
      → lookup k (file_written ref m) ≡ lookup k m
  lookup-file_written none h = refl
  lookup-file_written (some ref) h = rw (lookup-update_child, h)

  pub lookup-session_written :
      (hostname : String)
      → ("session" == k) ≡ false
      → lookup k (session_written hostname m) ≡ lookup k m
  lookup-session_written hostname h = elim (Bool-cases (hostname == "")) [
    | inl e ↦ rw e
    | inr e ↦ rw (e, lookup-update_child, h)
  ]

  pub lookup-rules_written :
      (rules : List Object)
      → ("access_control" == k) ≡ false
      → lookup k (rules_written rules m) ≡ lookup k m
  lookup-rules_written [] h = refl
  lookup-rules_written (r ∷ rs) h = rw (lookup-update_child, h)

  pub lookup-clients_written :
      (clients : List OidcClient)
      → ("identity_providers" == k) ≡ false
      → lookup k (clients_written clients m) ≡ lookup k m
  lookup-clients_written [] h = refl
  lookup-clients_written (c ∷ cs) h = rw (lookup-update_child, h)

-- The sections of the tree, and the maps below two of them.
abbrev pub file_of : Object → Object
file_of m = child_map "file" (child_map "authentication_backend" m)

abbrev pub oidc_of : Object → Object
oidc_of m = child_map "oidc" (child_map "identity_providers" m)

-- What the writes make of the maps that they end in.
abbrev pub file_after : Option SecretKeyRef → Object → Object
file_after none file = file
file_after (some ref) file = set_path ref file

abbrev pub session_after : String → Object → Object
session_after hostname session = if hostname == "" then session else add_cookies hostname session

abbrev pub access_after : List Object → Object → Object
access_after [] ac = ac
access_after (r ∷ rs) ac = prepend_rules (r ∷ rs) ac

abbrev pub oidc_after : List OidcClient → Object → Object
oidc_after [] oidc = oidc
oidc_after (c ∷ cs) oidc = set_clients (c ∷ cs) oidc

pub file_of-written :
    (ref : Option SecretKeyRef) (m : Object)
    → file_of (file_written ref m) ≡ file_after ref (file_of m)
file_of-written none m = refl
file_of-written (some ref) m = simp child_map-update_child

pub session-written :
    (hostname : String) (m : Object)
    → child_map "session" (session_written hostname m)
      ≡ session_after hostname (child_map "session" m)
session-written hostname m = elim (Bool-cases (hostname == "")) [
  | inl e ↦ rw e
  | inr e ↦ rw (e, child_map-update_child)
]

pub access-written :
    (rules : List Object) (m : Object)
    → child_map "access_control" (rules_written rules m)
      ≡ access_after rules (child_map "access_control" m)
access-written [] m = refl
access-written (r ∷ rs) m = rw child_map-update_child

pub oidc_of-written :
    (clients : List OidcClient) (m : Object)
    → oidc_of (clients_written clients m) ≡ oidc_after clients (oidc_of m)
oidc_of-written [] m = refl
oidc_of-written (c ∷ cs) m = simp child_map-update_child

abbrev pub is_nil : List OidcClient → Bool
is_nil [] = true
is_nil (_ ∷ _) = false

abbrev pub is_empty : List Object → Bool
is_empty [] = true
is_empty (_ ∷ _) = false

abbrev pub is_absent : Option SecretKeyRef → Bool
is_absent none = true
is_absent (some _) = false

-- The keys beside the map that a write ends in.
pub backend_others-written :
    (ref : Option SecretKeyRef) (m : Object) (j : String)
    → ("file" == j) ≡ false
    → lookup j (child_map "authentication_backend" (file_written ref m))
      ≡ lookup j (child_map "authentication_backend" m)
backend_others-written none m j h = refl
backend_others-written (some ref) m j h = rw (child_map-update_child, lookup-update_child, h)

pub provider_others-written :
    (clients : List OidcClient) (m : Object) (j : String)
    → ("oidc" == j) ≡ false
    → lookup j (child_map "identity_providers" (clients_written clients m))
      ≡ lookup j (child_map "identity_providers" m)
provider_others-written [] m j h = refl
provider_others-written (c ∷ cs) m j h = rw (child_map-update_child, lookup-update_child, h)

-- The value under the key of a section after its write.
pub backend_value :
    (ref : Option SecretKeyRef) (m : Object)
    → lookup "authentication_backend" (file_written ref m) ≡ (
        if is_absent ref
        then lookup "authentication_backend" m
        else some (object (child_map "authentication_backend" (file_written ref m))))
backend_value none m = refl
backend_value (some ref) m = update_child_value "authentication_backend" _ m

pub session_value :
    (hostname : String) (m : Object)
    → lookup "session" (session_written hostname m) ≡ (
        if hostname == ""
        then lookup "session" m
        else some (object (child_map "session" (session_written hostname m))))
session_value hostname m = elim (Bool-cases (hostname == "")) [
  | inl e ↦ rw e
  | inr e ↦ rw e (update_child_value "session" _ m)
]

pub access_value :
    (rules : List Object) (m : Object)
    → lookup "access_control" (rules_written rules m) ≡ (
        if is_empty rules
        then lookup "access_control" m
        else some (object (child_map "access_control" (rules_written rules m))))
access_value [] m = refl
access_value (r ∷ rs) m = update_child_value "access_control" _ m

pub provider_value :
    (clients : List OidcClient) (m : Object)
    → lookup "identity_providers" (clients_written clients m) ≡ (
        if is_nil clients
        then lookup "identity_providers" m
        else some (object (child_map "identity_providers" (clients_written clients m))))
provider_value [] m = refl
provider_value (c ∷ cs) m = update_child_value "identity_providers" _ m
