-- ===== src/Render/Errors.antt =====
-- renderConfig of internal/controller/render.go as a whole: its results, errors and panics.
use mathlib.Core.List.Perm
use heliop.Base.{
  String, Bool, ◌&&◌, Option, none, some, List, [], ◌∷◌, Perm, Mem, ◌≡◌, ◌≢◌, refl, arith, eq_iff,
  ◌==◌, if◌then◌else◌, if_false, Bool-cases, inl, inr,
}
use heliop.Base.Result.{ok, err, panic, parsing_additional_config, ◌>>=◌}
use heliop.Json.{
  Value, null as json_null, bool, number, str, obj, arr, Fields, props, Object, to_map,
}
use heliop.Api.{SecretKeyRef, AutheliaSettings}
use heliop.Render.{
  OidcClient, apply_file_backend, apply_session, apply_rules, apply_clients, set_clients,
  client_maps, layer, base_root, decoded, marshalled, render_config,
}
use heliop.Render.Clients.{client_maps-perm}
use heliop.Render.Layers.{IsLayered, layer_lem}
use heliop.Render.Writes.{is_nil, is_empty, is_absent}

-- Nothing is layered on the configuration.
abbrev pub is_plain : AutheliaSettings → List OidcClient → List Object → String → Bool
is_plain settings clients rules hostname =
    is_absent settings.file_users_secret && hostname == "" && is_empty rules && is_nil clients

layer-nil_session :
    (clients : List OidcClient) (rules : List Object) (hostname : String)
    → (apply_session hostname none >>= λ r2.
        apply_rules rules r2 >>= λ r3. apply_clients clients r3)
      ≡ (if hostname == "" && is_empty rules && is_nil clients then ok none else panic)
unfolding apply_session apply_rules apply_clients
layer-nil_session [] [] hostname = ground arith
layer-nil_session (c ∷ cs) [] hostname = ground arith
layer-nil_session clients (r ∷ rs) hostname = ground arith

layer-nil :
    (file : Option SecretKeyRef) (clients : List OidcClient) (rules : List Object)
    (hostname : String)
    → (apply_file_backend file none >>= λ r1.
        apply_session hostname r1 >>= λ r2. apply_rules rules r2 >>= λ r3. apply_clients clients r3)
      ≡ (if is_absent file && hostname == "" && is_empty rules && is_nil clients
          then ok none
          else panic)
unfolding apply_file_backend
layer-nil none clients rules hostname = layer-nil_session clients rules hostname
layer-nil (some ref) clients rules hostname = refl

layer-null :
    (settings : AutheliaSettings) (clients : List OidcClient) (rules : List Object)
    (hostname : String)
    → layer settings clients rules hostname none
      ≡ (if is_plain settings clients rules hostname then ok none else panic)
unfolding layer
layer-null settings clients rules hostname =
    layer-nil settings.file_users_secret clients rules hostname

base_root-raw :
    (parse : String → Option Value) (raw : String)
    → raw ≢ ""
    → base_root parse (some raw) ≡ decoded (to_map (parse raw))
unfolding base_root
base_root-raw parse raw ne = if_false {b = raw == ""} _ _ (ground (arith, eq_iff raw ""))

apply_clients-eq :
    (clients others : List OidcClient)
    → Perm clients others
    → client_maps clients ≡ client_maps others
    → (root : Option Object) → apply_clients clients root ≡ apply_clients others root
unfolding apply_clients set_clients
apply_clients-eq [] [] p e root = refl
apply_clients-eq [] (c ∷ cs) p e root = absurd (let h = Perm.nil-eq p in cc h)
apply_clients-eq (c ∷ cs) [] p e root = absurd (let h = Perm.eq-nil p in cc h)
apply_clients-eq (c ∷ cs) (d ∷ ds) p e root = rw e refl

-- The configuration that an `additionalConfig` describes: none where it is absent or empty, or the
-- members of the JSON object that it is the text of.
pub data IsConfiguration (parse : String → Option Value) : Option String → Object → Type 0 where
  is_absent_config : IsConfiguration parse none []
  is_empty_config : IsConfiguration parse (some "") []
  is_object_config :
      (raw : String) (members : Fields)
      → raw ≢ ""
      → parse raw ≡ some (obj members)
      → IsConfiguration parse (some raw) (props members)

base_root-IsConfiguration :
    (parse : String → Option Value) {config : Option String} {m : Object}
    → IsConfiguration parse config m
    → base_root parse config ≡ ok (some m)
unfolding base_root decoded
base_root-IsConfiguration parse is_absent_config = refl
base_root-IsConfiguration parse is_empty_config = refl
base_root-IsConfiguration parse (is_object_config raw members ne e) =
    rw (base_root-raw parse raw ne, e) refl

-- What the parser finds: no JSON text, or a value that is neither an object nor `null`.
abbrev pub IsUnusable : Option Value → Type 0
IsUnusable (some (obj _)) = ⊥
IsUnusable (some json_null) = ⊥
IsUnusable _ = Unit

to_map-IsUnusable : (v : Option Value) → IsUnusable v → to_map v ≡ none
to_map-IsUnusable none h = refl
to_map-IsUnusable (some json_null) h = absurd h
to_map-IsUnusable (some (bool _)) h = refl
to_map-IsUnusable (some (number _)) h = refl
to_map-IsUnusable (some (str _)) h = refl
to_map-IsUnusable (some (obj _)) h = absurd h
to_map-IsUnusable (some (arr _)) h = refl

module _ (parse : String → Option Value) (marshal : Option Object → Option String)
    (settings : AutheliaSettings) where
  -- Where `additionalConfig` is absent, empty or an object, the result is the text of the layered
  -- configuration, or the error of the YAML library: there is no panic and no other error.
  pub render_config_object :
      (clients : List OidcClient) (rules : List Object) (hostname : String) (m : Object)
      → IsConfiguration parse settings.additional_config m
      → (r : Object) × IsLayered settings clients rules hostname m r
        × (render_config parse marshal settings clients rules hostname
            ≡ marshalled (marshal (some r)))
  unfolding render_config
  render_config_object clients rules hostname m base =
      let (r, e, l) = layer_lem settings clients rules hostname m in
      (r, l, rw (base_root-IsConfiguration parse base, e))

  -- An `additionalConfig` that is not empty is an error of its parsing, whatever else is to be
  -- rendered, where it is no JSON text or one of a value that is neither an object nor `null`: a list, a
  -- Boolean, a number or a string.
  pub render_config_invalid :
      (clients : List OidcClient) (rules : List Object) (hostname raw : String)
      → settings.additional_config ≡ some raw
      → raw ≢ ""
      → IsUnusable (parse raw)
      → render_config parse marshal settings clients rules hostname ≡ err parsing_additional_config
  unfolding render_config decoded
  render_config_invalid clients rules hostname raw e ne bad =
      rw (e, base_root-raw parse raw ne, to_map-IsUnusable (parse raw) bad)

  -- An `additionalConfig` of `null` makes the root a nil map: rendering panics exactly when there is
  -- something to layer on it, a users Secret, a hostname, a generated rule or a client.
  pub render_config_null :
      (clients : List OidcClient) (rules : List Object) (hostname raw : String)
      → settings.additional_config ≡ some raw
      → raw ≢ ""
      → to_map (parse raw) ≡ some none
      → render_config parse marshal settings clients rules hostname
        ≡ (if is_plain settings clients rules hostname then marshalled (marshal none) else panic)
  unfolding render_config decoded
  render_config_null clients rules hostname raw e ne null =
      rw (e, base_root-raw parse raw ne, null, layer-null settings clients rules hostname)
        (elim (Bool-cases (is_plain settings clients rules hostname)) [
          | inl plain ↦ rw plain
          | inr more ↦ rw more
        ])

  -- The text does not depend on the order of the clients, if clients with one ID are the same client.
  pub render_config-perm :
      (clients others : List OidcClient) (rules : List Object) (hostname : String)
      → Perm clients others
      → ((a b : OidcClient)
          → Mem a clients
          → Mem b clients
          → a.spec.client_id ≡ b.spec.client_id
          → a ≡ b)
      → render_config parse marshal settings clients rules hostname
        ≡ render_config parse marshal settings others rules hostname
  unfolding render_config layer
  render_config-perm clients others rules hostname p distinct =
      simp (apply_clients-eq clients others p (client_maps-perm clients others p distinct))
