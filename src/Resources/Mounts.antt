-- ===== src/Resources/Mounts.antt =====
-- The volumes and mounts of buildDeployment, in internal/controller/resources.go.
use mathlib.Core.List.{
  Mem-prop, not-mem-nil, mem-append_left, mem-append_right, mem-cons, mem-cons_self, map-append,
}
use mathlib.Core.List.Perm
use mathlib.Core.Logic.Or
use heliop.Base.{
  String, ◌<>◌, Bool, true, Option, none, some, List, [], ◌∷◌, map, Mem, Perm, All, ◌≡◌, Bool-cases,
  Option-cases, inl, inr, if◌then◌else◌,
}
use heliop.Api.{SecretKeyRef, AutheliaSecret, Authelia}
use heliop.Names.{is_file_secret, secret_volume_name, secret_mount_path}
use heliop.Kubernetes.{EnvVar, VolumeMount, secret, Volume}
use heliop.Resources.{
  Storage, with_secret, add_file_users, add_secret, add_secrets, base_storage, storage, literal,
  secret_env, secrets_env, authelia_file_env, core_env, oidc_env, build_deployment,
}

abbrev pub volume_names : List Volume → List String
volume_names = map (λ v. v.name)

abbrev pub mount_names : List VolumeMount → List String
mount_names = map (λ m. m.name)

-- Each volume is mounted once, and each mount is of a volume.
abbrev IsPaired : Storage → Type 0
IsPaired st = Perm (mount_names st.mounts) (volume_names st.volumes)

with_secret-IsPaired :
    (name secret_name path : String) (st : Storage)
    → IsPaired st
    → IsPaired (with_secret name secret_name path st)
with_secret-IsPaired name secret_name path st p =
    rw (map-append, map-append) (Perm.append_right (name ∷ []) p)

add_secret-IsPaired : (s : AutheliaSecret) (st : Storage) → IsPaired st → IsPaired (add_secret s st)
unfolding add_secret
add_secret-IsPaired s st p = elim (Option-cases s.secret) [
  | inl e ↦ rw e p
  | inr (ref, e) ↦ elim (Bool-cases (is_file_secret s.name)) [
    | inl k ↦ rw (e, k) (with_secret-IsPaired _ _ _ st p)
    | inr k ↦ rw (e, k) p
  ]
]

add_secrets-IsPaired :
    (ss : List AutheliaSecret) (st : Storage) → IsPaired st → IsPaired (add_secrets ss st)
unfolding add_secrets
add_secrets-IsPaired [] st p = p
add_secrets-IsPaired (s ∷ ss) st p =
    add_secrets-IsPaired ss (add_secret s st) (add_secret-IsPaired s st p)

add_file_users-IsPaired :
    (r : Option SecretKeyRef) (st : Storage) → IsPaired st → IsPaired (add_file_users r st)
unfolding add_file_users
add_file_users-IsPaired none st p = p
add_file_users-IsPaired (some ref) st p = with_secret-IsPaired _ _ _ st p

storage-IsPaired : (a : Authelia) → IsPaired (storage a)
unfolding storage base_storage
storage-IsPaired a =
    let settings = a.spec.settings in
    let base : IsPaired (base_storage a) = Perm.swap "authelia-secret" "config" ("data" ∷ []) in
    let more = add_file_users-IsPaired settings.file_users_secret (base_storage a) base in
    add_secrets-IsPaired settings.secrets
      (add_file_users settings.file_users_secret (base_storage a)) more

-- In the Deployment of every Authelia, the mounts of each container and the volumes of the pod
-- correspond one to one by their names.
pub build_deployment-mounts :
    (a : Authelia) (oidc_enabled : Bool) (config_checksum : String)
    → let d = build_deployment a oidc_enabled config_checksum in
      All (λ c. Perm (mount_names c.volume_mounts) (volume_names d.volumes)) d.containers
unfolding build_deployment
build_deployment-mounts a oidc_enabled config_checksum = (storage-IsPaired a, tt)

-- The Secret is a volume, and it is mounted read-only at the path.
pub record IsMounted (vs : List Volume) (ms : List VolumeMount) (name secret_name path : String)
    : Type 0 where
  pub volume : Mem (record { name = name; source = secret secret_name }) vs
  pub mount : Mem (record { name = name; mount_path = path; sub_path = ""; read_only = true }) ms

abbrev Mounts : Storage → String → String → String → Type 0
Mounts st = IsMounted st.volumes st.mounts

with_secret-Mounts :
    (name secret_name path : String) (st : Storage)
    → Mounts (with_secret name secret_name path st) name secret_name path
with_secret-Mounts name secret_name path st = record {
  volume = mem-append_right st.volumes mem-cons_self;
  mount = mem-append_right st.mounts mem-cons_self;
}

-- No step takes a volume or a mount away.
abbrev pub Holds : Volume → VolumeMount → Storage → Type 0
Holds v m st = Mem v st.volumes × Mem m st.mounts

add_secret-keeps :
    (s : AutheliaSecret) (st : Storage) (v : Volume) (m : VolumeMount)
    → Holds v m st
    → Holds v m (add_secret s st)
unfolding add_secret
add_secret-keeps s st v m (h, k) = elim (Option-cases s.secret) [
  | inl e ↦ rw e (h, k)
  | inr (ref, e) ↦ elim (Bool-cases (is_file_secret s.name)) [
    | inl f ↦ rw (e, f) (mem-append_left _ h, mem-append_left _ k)
    | inr f ↦ rw (e, f) (h, k)
  ]
]

add_secrets-keeps :
    (ss : List AutheliaSecret) (st : Storage) (v : Volume) (m : VolumeMount)
    → Holds v m st
    → Holds v m (add_secrets ss st)
unfolding add_secrets
add_secrets-keeps [] st v m h = h
add_secrets-keeps (s ∷ ss) st v m h =
    add_secrets-keeps ss (add_secret s st) v m (add_secret-keeps s st v m h)

add_file_users-keeps :
    (r : Option SecretKeyRef) (st : Storage) (v : Volume) (m : VolumeMount)
    → Holds v m st
    → Holds v m (add_file_users r st)
unfolding add_file_users
add_file_users-keeps none st v m h = h
add_file_users-keeps (some ref) st v m (h, k) = (mem-append_left _ h, mem-append_left _ k)

pub storage-keeps :
    (a : Authelia) (v : Volume) (m : VolumeMount)
    → Mem v (base_storage a).volumes
    → Mem m (base_storage a).mounts
    → Holds v m (storage a)
unfolding storage
storage-keeps a v m h k =
    let settings = a.spec.settings in
    add_secrets-keeps settings.secrets (add_file_users settings.file_users_secret (base_storage a))
      v m (add_file_users-keeps settings.file_users_secret (base_storage a) v m (h, k))

-- The variable of an entry of `settings.secrets`: the path of a key in the mounted Secret, or a
-- reference to the key.
abbrev pub secret_var : AutheliaSecret → SecretKeyRef → EnvVar
secret_var s ref =
    if is_file_secret s.name
    then literal s.name (secret_mount_path s.name <> "/" <> ref.key)
    else record { name = s.name; value = ""; value_from = some ref }

module _ (s : AutheliaSecret) (ref : SecretKeyRef) (given : s.secret ≡ some ref) where
  secrets_env-Mem : (ss : List AutheliaSecret) → Mem s ss → Mem (secret_var s ref) (secrets_env ss)
  unfolding secrets_env secret_env
  secrets_env-Mem [] m = absurd (not-mem-nil m)
  secrets_env-Mem (t ∷ ts) m =
      Or.elim Mem-prop (mem-cons.0 m)
        (λ e. mem-append_left {s = secret_env t} (secrets_env ts) (rw (← e, given) mem-cons_self))
        (λ n. mem-append_right (secret_env t) (secrets_env-Mem ts n))

  module _ (file : is_file_secret s.name ≡ true) where
    abbrev MountsSecret : Storage → Type 0
    MountsSecret st = Mounts st (secret_volume_name s.name) ref.name (secret_mount_path s.name)

    add_secret-Mounts : (st : Storage) → MountsSecret (add_secret s st)
    unfolding add_secret
    add_secret-Mounts st = rw (given, file) (with_secret-Mounts _ _ _ st)

    MountsSecret-prop : (st : Storage) → IsProp (MountsSecret st)
    MountsSecret-prop st = hlevel Mem-prop

    add_secrets-Mounts :
        (ss : List AutheliaSecret) (st : Storage) → Mem s ss → MountsSecret (add_secrets ss st)
    unfolding add_secrets
    add_secrets-Mounts [] st m = absurd (not-mem-nil m)
    add_secrets-Mounts (t ∷ ts) st m =
        Or.elim (MountsSecret-prop _) (mem-cons.0 m)
          (λ e.
            let here = add_secret-Mounts st in
            let (h, k) = add_secrets-keeps ts (add_secret s st) _ _ (here.volume, here.mount) in
            rw (← e) (record { volume = h; mount = k }))
          (λ n. add_secrets-Mounts ts (add_secret t st) n)

file_var :
    (s : AutheliaSecret) (ref : SecretKeyRef)
    → is_file_secret s.name ≡ true
    → secret_var s ref ≡ literal s.name (secret_mount_path s.name <> "/" <> ref.key)
file_var s ref file = rw file

-- Each `_FILE` variable with a Secret among `settings.secrets` is in the Deployment as a volume of
-- that Secret, its read-only mount, and a variable with the path of the key under that mount.
pub build_deployment-file_secret :
    (a : Authelia) (oidc_enabled : Bool) (config_checksum : String)
    → (s : AutheliaSecret) (ref : SecretKeyRef) → Mem s a.spec.settings.secrets
    → s.secret ≡ some ref
    → is_file_secret s.name ≡ true
    → let d = build_deployment a oidc_enabled config_checksum in
      All
        (λ c.
          IsMounted d.volumes c.volume_mounts
            (secret_volume_name s.name)
            ref.name
            (secret_mount_path s.name)
          × Mem (literal s.name (secret_mount_path s.name <> "/" <> ref.key)) c.env)
        d.containers
unfolding build_deployment storage authelia_file_env
build_deployment-file_secret a oidc_enabled config_checksum s ref m given file = (
  (
    add_secrets-Mounts s ref given file a.spec.settings.secrets
        (add_file_users a.spec.settings.file_users_secret (base_storage a)) m,
    mem-append_right core_env (
        mem-append_right (if oidc_enabled then oidc_env else [])
          (rw (← file_var s ref file) (secrets_env-Mem s ref given a.spec.settings.secrets m))),
  ),
  tt,
)
