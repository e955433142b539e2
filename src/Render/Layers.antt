-- ===== src/Render/Layers.antt =====
-- renderConfig of internal/controller/render.go: what each section of the tree holds, and what stays.
use heliop.Base.{
  String, false, Option, none, Bool-cases, Option-cases, eq_refl, inl, inr, ◌≢◌, some, List, [],
  ◌∷◌, ◌++◌, map, ◌≡◌, refl, arith, eq_iff, ◌==◌, contains, if◌then◌else◌,
}
use heliop.Base.Dict.{lookup, insert, lookup-insert}
use heliop.Base.Options.{or_else}
use heliop.Base.Result.{ok}
use heliop.Json.{Value, str, Object, object, array, list_of, elems-items}
use heliop.Api.{SecretKeyRef, AutheliaSettings}
use heliop.Render.{
  OidcClient, child_map, add_cookies, prepend_rules, set_clients, client_maps, layer,
  default_cookie,
}
use heliop.Names.{file_users_path}
use heliop.Render.Layered.{
  layered, layer-layered, file_of-layered, session-layered, access-layered, oidc_of-layered,
  others-layered, backend_others-layered, provider_others-layered, backend_value-layered,
  session_value-layered, access_value-layered, provider_value-layered,
}
use heliop.Render.Writes.{
  file_of, oidc_of, sections, file_after, session_after, access_after, oidc_after, is_nil, is_empty,
  is_absent,
}

-- The static rules: the list under access_control.rules, or none.
abbrev pub static_rules : Object → List Value
static_rules m = list_of (lookup "rules" (child_map "access_control" m))

-- The tree `r` that is made of the tree `m`.
pub record IsLayered (settings : AutheliaSettings) (clients : List OidcClient) (rules : List Object)
    (hostname : String) (m r : Object) : Type 0 where
  pub file_path : lookup "path" (file_of r) ≡ elim settings.file_users_secret [
    | none ↦ lookup "path" (file_of m)
    | some ref ↦ some (str (file_users_path ref))
  ]
  pub file_others : (j : String) → j ≢ "path" → lookup j (file_of r) ≡ lookup j (file_of m)
  pub cookies : lookup "cookies" (child_map "session" r) ≡ (
      if hostname == ""
      then lookup "cookies" (child_map "session" m)
      else or_else
          (lookup "cookies" (child_map "session" m))
          (some (array (default_cookie hostname ∷ []))))
  pub session_others :
      (j : String)
      → j ≢ "cookies"
      → lookup j (child_map "session" r) ≡ lookup j (child_map "session" m)
  pub rules_first : static_rules r ≡ map object rules ++ static_rules m
  pub access_others :
      (j : String)
      → j ≢ "rules"
      → lookup j (child_map "access_control" r) ≡ lookup j (child_map "access_control" m)
  pub clients_all : lookup "clients" (oidc_of r) ≡ (
      if is_nil clients then lookup "clients" (oidc_of m) else some (array (client_maps clients)))
  pub oidc_others : (j : String) → j ≢ "clients" → lookup j (oidc_of r) ≡ lookup j (oidc_of m)
  -- Beside the maps that are written to, and where nothing is written.
  pub backend_others :
      (j : String)
      → j ≢ "file"
      → lookup j (child_map "authentication_backend" r)
        ≡ lookup j (child_map "authentication_backend" m)
  pub provider_others :
      (j : String)
      → j ≢ "oidc"
      → lookup j (child_map "identity_providers" r) ≡ lookup j (child_map "identity_providers" m)
  pub backend : lookup "authentication_backend" r ≡ (
      if is_absent settings.file_users_secret
      then lookup "authentication_backend" m
      else some (object (child_map "authentication_backend" r)))
  pub session :
      lookup "session" r
      ≡ (if hostname == "" then lookup "session" m else some (object (child_map "session" r)))
  pub access_control : lookup "access_control" r ≡ (
      if is_empty rules
      then lookup "access_control" m
      else some (object (child_map "access_control" r)))
  pub identity_providers : lookup "identity_providers" r ≡ (
      if is_nil clients
      then lookup "identity_providers" m
      else some (object (child_map "identity_providers" r)))
  pub others : (j : String) → contains sections j ≡ false → lookup j r ≡ lookup j m

insert-others :
    (k : String) (v : Value) (m : Object) (j : String)
    → j ≢ k
    → lookup j (insert k v m) ≡ lookup j m
insert-others k v m j h = rw lookup-insert (ground (arith, eq_iff k j))

insert_self : (k : String) (v : Value) (m : Object) → lookup k (insert k v m) ≡ some v
insert_self k v m = rw lookup-insert (ground (arith, eq_refl k))

file_after-path :
    (ref : Option SecretKeyRef) (m : Object)
    → lookup "path" (file_after ref m)
      ≡ elim ref [ none ↦ lookup "path" m | some r ↦ some (str (file_users_path r)) ]
file_after-path none m = refl
file_after-path (some ref) m = insert_self "path" _ m

file_after-others :
    (ref : Option SecretKeyRef) (m : Object) (j : String)
    → j ≢ "path"
    → lookup j (file_after ref m) ≡ lookup j m
file_after-others none m j h = refl
file_after-others (some ref) m j h = insert-others "path" _ m j h

add_cookies-cookies :
    (hostname : String) (session : Object)
    → lookup "cookies" (add_cookies hostname session)
      ≡ or_else (lookup "cookies" session) (some (array (default_cookie hostname ∷ [])))
unfolding add_cookies
add_cookies-cookies hostname session = elim (Option-cases (lookup "cookies" session)) [
  | inl e ↦ rw (e, add_cookies) (insert_self "cookies" _ session)
  | inr (v, e) ↦ rw (e, add_cookies) e
]

add_cookies-others :
    (hostname : String) (session : Object) (j : String)
    → j ≢ "cookies"
    → lookup j (add_cookies hostname session) ≡ lookup j session
unfolding add_cookies
add_cookies-others hostname session j h = elim (Option-cases (lookup "cookies" session)) [
  | inl e ↦ rw (e, add_cookies) (insert-others "cookies" _ session j h)
  | inr (v, e) ↦ rw (e, add_cookies) refl
]

session_after-cookies :
    (hostname : String) (session : Object)
    → lookup "cookies" (session_after hostname session) ≡ (
        if hostname == ""
        then lookup "cookies" session
        else or_else (lookup "cookies" session) (some (array (default_cookie hostname ∷ []))))
session_after-cookies hostname session = elim (Bool-cases (hostname == "")) [
  | inl e ↦ rw e
  | inr e ↦ rw e (add_cookies-cookies hostname session)
]

session_after-others :
    (hostname : String) (session : Object) (j : String)
    → j ≢ "cookies"
    → lookup j (session_after hostname session) ≡ lookup j session
session_after-others hostname session j h = elim (Bool-cases (hostname == "")) [
  | inl e ↦ rw e
  | inr e ↦ rw e (add_cookies-others hostname session j h)
]

access_after-rules :
    (rules : List Object) (ac : Object)
    → list_of (lookup "rules" (access_after rules ac))
      ≡ map object rules ++ list_of (lookup "rules" ac)
access_after-rules [] ac = refl
access_after-rules (r ∷ rs) ac = unfold prepend_rules in rw insert_self (elems-items _)

access_after-others :
    (rules : List Object) (ac : Object) (j : String)
    → j ≢ "rules"
    → lookup j (access_after rules ac) ≡ lookup j ac
access_after-others [] ac j h = refl
access_after-others (r ∷ rs) ac j h = unfold prepend_rules in insert-others "rules" _ ac j h

oidc_after-clients :
    (clients : List OidcClient) (oidc : Object)
    → lookup "clients" (oidc_after clients oidc)
      ≡ (if is_nil clients then lookup "clients" oidc else some (array (client_maps clients)))
oidc_after-clients [] oidc = refl
oidc_after-clients (c ∷ cs) oidc = unfold set_clients in insert_self "clients" _ oidc

oidc_after-others :
    (clients : List OidcClient) (oidc : Object) (j : String)
    → j ≢ "clients"
    → lookup j (oidc_after clients oidc) ≡ lookup j oidc
oidc_after-others [] oidc j h = refl
oidc_after-others (c ∷ cs) oidc j h = unfold set_clients in insert-others "clients" _ oidc j h

module _ (settings : AutheliaSettings) (clients : List OidcClient) (rules : List Object)
    (hostname : String) (m : Object) where
  layered-IsLayered :
      IsLayered settings clients rules hostname m (layered settings clients rules hostname m)
  layered-IsLayered = record {
    file_path = rw file_of-layered (file_after-path settings.file_users_secret _);
    file_others = λ j h. rw file_of-layered (file_after-others settings.file_users_secret _ j h);
    cookies = rw session-layered (session_after-cookies hostname _);
    session_others = λ j h. rw session-layered (session_after-others hostname _ j h);
    rules_first = rw access-layered (access_after-rules rules _);
    access_others = λ j h. rw access-layered (access_after-others rules _ j h);
    clients_all = rw oidc_of-layered (oidc_after-clients clients _);
    oidc_others = λ j h. rw oidc_of-layered (oidc_after-others clients _ j h);
    backend_others = λ j h.
        backend_others-layered settings clients rules hostname m j
          (ground (arith, eq_iff "file" j));
    provider_others = λ j h.
        provider_others-layered settings clients rules hostname m j
          (ground (arith, eq_iff "oidc" j));
    backend = backend_value-layered settings clients rules hostname m;
    session = session_value-layered settings clients rules hostname m;
    access_control = access_value-layered settings clients rules hostname m;
    identity_providers = provider_value-layered settings clients rules hostname m;
    others = others-layered settings clients rules hostname m;
  }

  -- The writes of `renderConfig` to a configuration that is an object neither fail nor panic. They
  -- set the file path when there is a users Secret; they add a default session cookie only where the
  -- hostname is given and no cookies are configured; they put the generated rules before the static
  -- ones; they replace the client list if there are clients. All else stays: every other key of the
  -- maps that are written to, at each level, every other section, and a section to which nothing is
  -- written as it was, whatever value it is.
  pub layer_lem :
      (r : Object) × (layer settings clients rules hostname (some m) ≡ ok (some r))
      × IsLayered settings clients rules hostname m r
  layer_lem = (
    layered settings clients rules hostname m,
    layer-layered settings clients rules hostname m,
    layered-IsLayered,
  )
