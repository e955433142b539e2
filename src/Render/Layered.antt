-- ===== src/Render/Layered.antt =====
-- renderConfig of internal/controller/render.go: the writes to all sections of the tree, one after the
-- other, and what each section holds after them.
use heliop.Base.{
  String, Bool, true, false, Option, none, Bool-cases, inl, inr, some, List, [], ◌∷◌, ◌≡◌, refl,
  sym, ap, ◌∙◌, arith, ◌==◌, contains, if◌then◌else◌,
}
use heliop.Base.Dict.{lookup}
use heliop.Base.Result.{ok}
use heliop.Json.{Value, Object, object}
use heliop.Api.{SecretKeyRef, AutheliaSettings}
use heliop.Render.{
  OidcClient, child_map, apply_file_backend, apply_session, apply_rules, apply_clients, layer,
}
use heliop.Render.Trees.{child_map-eq}
use heliop.Render.Writes.{
  file_written, session_written, rules_written, clients_written, sections, lookup-file_written,
  lookup-session_written, lookup-rules_written, lookup-clients_written, file_of, oidc_of,
  file_after, session_after, access_after, oidc_after, file_of-written, session-written,
  access-written, oidc_of-written, is_nil, is_empty, is_absent, backend_others-written,
  provider_others-written, backend_value, session_value, access_value, provider_value,
}

-- The value of a section, in a tree with the same value there, and from a value that is the same.
value-eq :
    (k : String) (b : Bool) (r n : Object) (v w : Option Value)
    → lookup k r ≡ lookup k n
    → v ≡ w
    → lookup k n ≡ (if b then v else some (object (child_map k n)))
    → lookup k r ≡ (if b then w else some (object (child_map k r)))
value-eq k true r n v w same e value = same ∙ value ∙ e
value-eq k false r n v w same e value =
    same ∙ value ∙ ap (λ x. some (object x)) (sym (child_map-eq k r n same))

module _ (settings : AutheliaSettings) (clients : List OidcClient) (rules : List Object)
    (hostname : String) where
  abbrev pub layered : Object → Object
  layered m =
      clients_written clients
        (rules_written rules (session_written hostname (file_written settings.file_users_secret m)))

  -- The sections of the whole tree: the writes to other sections do not reach them.
  pub backend-layered :
      (m : Object)
      → lookup "authentication_backend" (layered m)
        ≡ lookup "authentication_backend" (file_written settings.file_users_secret m)
  backend-layered m =
      lookup-clients_written _ _ clients refl
      ∙ lookup-rules_written _ _ rules refl
      ∙ lookup-session_written _ _ hostname refl

  file_child-layered :
      (m : Object)
      → child_map "authentication_backend" (layered m)
        ≡ child_map "authentication_backend" (file_written settings.file_users_secret m)
  file_child-layered m = child_map-eq "authentication_backend" _ _ (backend-layered m)

  pub file_of-layered :
      (m : Object) → file_of (layered m) ≡ file_after settings.file_users_secret (file_of m)
  file_of-layered m =
      ap (child_map "file") (file_child-layered m) ∙ file_of-written settings.file_users_secret m

  pub backend_others-layered :
      (m : Object) (j : String)
      → ("file" == j) ≡ false
      → lookup j (child_map "authentication_backend" (layered m))
        ≡ lookup j (child_map "authentication_backend" m)
  backend_others-layered m j h =
      ap (lookup j) (file_child-layered m) ∙ backend_others-written settings.file_users_secret m j h

  pub lookup-session-layered :
      (m : Object)
      → lookup "session" (layered m)
        ≡ lookup "session" (session_written hostname (file_written settings.file_users_secret m))
  lookup-session-layered m =
      lookup-clients_written _ _ clients refl ∙ lookup-rules_written _ _ rules refl

  pub session-layered :
      (m : Object)
      → child_map "session" (layered m) ≡ session_after hostname (child_map "session" m)
  session-layered m =
      child_map-eq "session" _ _ (lookup-session-layered m)
      ∙ session-written hostname _
      ∙ ap (session_after hostname)
          (child_map-eq "session" _ _ (lookup-file_written _ m settings.file_users_secret refl))

  pub lookup-access-layered :
      (m : Object)
      → lookup "access_control" (layered m)
        ≡ lookup "access_control" (
            rules_written rules
              (session_written hostname (file_written settings.file_users_secret m)))
  lookup-access-layered m = lookup-clients_written _ _ clients refl

  access_before :
      (m : Object)
      → lookup "access_control"
          (session_written hostname (file_written settings.file_users_secret m))
        ≡ lookup "access_control" m
  access_before m =
      lookup-session_written _ _ hostname refl
      ∙ lookup-file_written _ m settings.file_users_secret refl

  pub access-layered :
      (m : Object)
      → child_map "access_control" (layered m) ≡ access_after rules (child_map "access_control" m)
  access-layered m =
      child_map-eq "access_control" _ _ (lookup-access-layered m)
      ∙ access-written rules _
      ∙ ap (access_after rules) (child_map-eq "access_control" _ _ (access_before m))

  providers_before :
      (m : Object)
      → lookup "identity_providers" (
          rules_written rules
            (session_written hostname (file_written settings.file_users_secret m)))
        ≡ lookup "identity_providers" m
  providers_before m =
      lookup-rules_written _ _ rules refl
      ∙ lookup-session_written _ _ hostname refl
      ∙ lookup-file_written _ m settings.file_users_secret refl

  pub oidc_of-layered : (m : Object) → oidc_of (layered m) ≡ oidc_after clients (oidc_of m)
  oidc_of-layered m =
      oidc_of-written clients _
      ∙ ap (λ s. oidc_after clients (child_map "oidc" s))
          (child_map-eq "identity_providers" _ _ (providers_before m))

  pub provider_others-layered :
      (m : Object) (j : String)
      → ("oidc" == j) ≡ false
      → lookup j (child_map "identity_providers" (layered m))
        ≡ lookup j (child_map "identity_providers" m)
  provider_others-layered m j h =
      provider_others-written clients _ j h
      ∙ ap (lookup j) (child_map-eq "identity_providers" _ _ (providers_before m))

  -- What stands under the key of each section: the value that was there, or the map that is written.
  pub backend_value-layered :
      (m : Object)
      → lookup "authentication_backend" (layered m) ≡ (
          if is_absent settings.file_users_secret
          then lookup "authentication_backend" m
          else some (object (child_map "authentication_backend" (layered m))))
  backend_value-layered m =
      value-eq "authentication_backend" (is_absent settings.file_users_secret) _ _
        (lookup "authentication_backend" m) _ (backend-layered m) refl
        (backend_value settings.file_users_secret m)

  pub session_value-layered :
      (m : Object)
      → lookup "session" (layered m) ≡ (
          if hostname == ""
          then lookup "session" m
          else some (object (child_map "session" (layered m))))
  session_value-layered m =
      value-eq "session" _ _ _ _ _ (lookup-session-layered m)
        (lookup-file_written _ m settings.file_users_secret refl) (session_value hostname _)

  pub access_value-layered :
      (m : Object)
      → lookup "access_control" (layered m) ≡ (
          if is_empty rules
          then lookup "access_control" m
          else some (object (child_map "access_control" (layered m))))
  access_value-layered m =
      value-eq "access_control" _ _ _ _ _ (lookup-access-layered m) (access_before m)
        (access_value rules _)

  pub provider_value-layered :
      (m : Object)
      → lookup "identity_providers" (layered m) ≡ (
          if is_nil clients
          then lookup "identity_providers" m
          else some (object (child_map "identity_providers" (layered m))))
  provider_value-layered m =
      value-eq "identity_providers" _ _ _ _ _ refl (providers_before m) (provider_value clients _)

  pub others-layered :
      (m : Object) (j : String) → contains sections j ≡ false → lookup j (layered m) ≡ lookup j m
  others-layered m j h =
      lookup-clients_written _ _ clients (ground arith)
      ∙ lookup-rules_written _ _ rules (ground arith)
      ∙ lookup-session_written _ _ hostname (ground arith)
      ∙ lookup-file_written _ m settings.file_users_secret (ground arith)

  pub apply_file_backend-written :
      (ref : Option SecretKeyRef) (m : Object)
      → apply_file_backend ref (some m) ≡ ok (some (file_written ref m))
  unfolding apply_file_backend
  apply_file_backend-written none m = refl
  apply_file_backend-written (some ref) m = refl

  pub apply_session-written :
      (m : Object) → apply_session hostname (some m) ≡ ok (some (session_written hostname m))
  unfolding apply_session
  apply_session-written m = elim (Bool-cases (hostname == "")) [ inl e ↦ rw e | inr e ↦ rw e ]

  pub apply_rules-written :
      (rs : List Object) (m : Object) → apply_rules rs (some m) ≡ ok (some (rules_written rs m))
  unfolding apply_rules
  apply_rules-written [] m = refl
  apply_rules-written (r ∷ rs) m = refl

  pub apply_clients-written :
      (cs : List OidcClient) (m : Object)
      → apply_clients cs (some m) ≡ ok (some (clients_written cs m))
  unfolding apply_clients
  apply_clients-written [] m = refl
  apply_clients-written (c ∷ cs) m = refl

  pub layer-layered :
      (m : Object) → layer settings clients rules hostname (some m) ≡ ok (some (layered m))
  unfolding layer
  layer-layered m = rw (apply_file_backend-written settings.file_users_secret m) (
      rw (apply_session-written _)
        (rw (apply_rules-written rules _) (apply_clients-written clients _)))
