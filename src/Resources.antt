-- ===== src/Resources.antt =====
-- internal/controller/resources.go: the Kubernetes objects that the operator generates.
pub mod Deployments
pub mod Mounts
pub mod Tests
use heliop.Base.{
  ℕ, String, ◌<>◌, Bool, true, false, Option, none, some, List, [], ◌∷◌, ◌++◌, ◌==◌, if◌then◌else◌,
}
use heliop.Base.Dict.{Dict}
use heliop.Json.{Value}
use heliop.Api.{
  ℤ, pos, SecretKeyRef, AutheliaSecret, AutheliaSettings, ResourceRequirements, Authelia,
}
use heliop.Names.{
  config_map_name, data_pvc_name, file_backend_mount_path, is_file_secret, secret_volume_name,
  secret_mount_path, labels_for, selector_for,
}
use heliop.Secrets.{core_secret_name}
use heliop.Kubernetes.{
  ObjectMeta, PersistentVolumeClaim, ConfigMap, ServicePort, Service, EnvVar, VolumeMount,
  VolumeSource, secret, config_map, persistent_volume_claim, empty_dir, Volume, Probe,
  ContainerPort, Container, Deployment,
}

abbrev object_meta : String → Authelia → ObjectMeta
object_meta name a = record {
  name = name;
  namespace = a.namespace;
  labels = some (labels_for a);
  owner = none;
}

-- The caller has seen that there is a template.
unfoldable pub build_data_pvc : Authelia → PersistentVolumeClaim
build_data_pvc a = record {
  meta = object_meta (data_pvc_name a) a;
  spec = a.spec.deployment.volume_claim_template;
}

unfoldable pub build_config_map : Authelia → String → ConfigMap
build_config_map a rendered_config = record {
  meta = object_meta (config_map_name a) a;
  contents = ("configuration.yaml", rendered_config) ∷ [];
}

unfoldable pub build_service : Authelia → Service
build_service a = record {
  meta = object_meta a.name a;
  type = "ClusterIP";
  selector = selector_for a;
  ports = record { name = "http"; protocol = "TCP"; port = 80; target_port = "http" } ∷ [];
}

abbrev pub default_resources : ResourceRequirements
default_resources = record {
  requests = some (("cpu", "10m") ∷ ("memory", "50Mi") ∷ []);
  limits = some (("memory", "200Mi") ∷ []);
}

resources_or_default :
    ResourceRequirements → Option (Dict String) → Option (Dict String) → ResourceRequirements
resources_or_default r none none = default_resources
resources_or_default r _ _ = r

text_or : String → String → String
text_or default s = if s == "" then default else s

replicas_or : ℤ → Option ℤ → ℤ
replicas_or default none = default
replicas_or default (some n) = n

abbrev probe : ℕ → ℕ → Probe
probe initial_delay period = record {
  path = "/api/health";
  port = "http";
  scheme = "HTTP";
  initial_delay_seconds = initial_delay;
  period_seconds = period;
  timeout_seconds = 5;
  success_threshold = 1;
  failure_threshold = 5;
}

abbrev startup : Probe
startup = let p = probe 10 5 in record p { failure_threshold = 6 }

abbrev literal : String → String → EnvVar
literal name value = record { name = name; value = value; value_from = none }

-- What the loop of `autheliaFileEnv` appends for an entry.
secret_env : AutheliaSecret → List EnvVar
unfolding is_file_secret
secret_env s = elim s.secret [
  | none ↦ []
  | some ref ↦
      (if is_file_secret s.name
        then literal s.name (secret_mount_path s.name <> "/" <> ref.key)
        else record { name = s.name; value = ""; value_from = some ref })
      ∷ []
]

secrets_env : List AutheliaSecret → List EnvVar
unfolding secret_env
secrets_env [] = []
secrets_env (s ∷ ss) = secret_env s ++ secrets_env ss

abbrev core_env : List EnvVar
core_env =
    literal "AUTHELIA_SERVER_DISABLE_HEALTHCHECK" "true"
    ∷ literal "AUTHELIA_SESSION_SECRET_FILE" "/secrets/SESSION_ENCRYPTION_KEY"
    ∷ literal "AUTHELIA_STORAGE_ENCRYPTION_KEY_FILE" "/secrets/STORAGE_ENCRYPTION_KEY"
    ∷ []

abbrev oidc_env : List EnvVar
oidc_env =
    literal "AUTHELIA_IDENTITY_PROVIDERS_OIDC_HMAC_SECRET_FILE" "/secrets/OIDC_HMAC_SECRET"
    ∷ literal "AUTHELIA_IDENTITY_PROVIDERS_OIDC_ISSUER_PRIVATE_KEY_FILE" "/secrets/OIDC_PRIVATE_KEY"
    ∷ []

unfoldable pub authelia_file_env : AutheliaSettings → Bool → List EnvVar
unfolding secrets_env
authelia_file_env settings oidc_enabled =
    core_env ++ ((if oidc_enabled then oidc_env else []) ++ secrets_env settings.secrets)

-- The volumes and the mounts, which `buildDeployment` extends together.
pub record Storage : Type 0 where
  pub volumes : List Volume
  pub mounts : List VolumeMount

abbrev with_secret : String → String → String → Storage → Storage
with_secret name secret_name path st = record {
  volumes = st.volumes ++ record { name = name; source = secret secret_name } ∷ [];
  mounts =
      st.mounts ++ record { name = name; mount_path = path; sub_path = ""; read_only = true } ∷ [];
}

add_file_users : Option SecretKeyRef → Storage → Storage
add_file_users none st = st
add_file_users (some ref) st = with_secret "file-backend" ref.name file_backend_mount_path st

add_secret : AutheliaSecret → Storage → Storage
unfolding is_file_secret
add_secret s st = elim s.secret [
  | none ↦ st
  | some ref ↦
      if is_file_secret s.name
      then with_secret (secret_volume_name s.name) ref.name (secret_mount_path s.name) st
      else st
]

add_secrets : List AutheliaSecret → Storage → Storage
unfolding add_secret
add_secrets [] st = st
add_secrets (s ∷ ss) st = add_secrets ss (add_secret s st)

data_source : Authelia → Option Value → VolumeSource
data_source a none = empty_dir
data_source a (some _) = persistent_volume_claim (data_pvc_name a)

pub base_storage : Authelia → Storage
unfolding core_secret_name data_source
base_storage a = record {
  volumes =
      record { name = "authelia-secret"; source = secret (core_secret_name a) }
      ∷ record { name = "config"; source = config_map (config_map_name a) }
      ∷ record { name = "data"; source = data_source a a.spec.deployment.volume_claim_template }
      ∷ [];
  mounts =
      record {
        name = "config";
        mount_path = "/configuration.yaml";
        sub_path = "configuration.yaml";
        read_only = true;
      }
      ∷ record {
        name = "authelia-secret";
        mount_path = "/secrets";
        sub_path = "";
        read_only = true;
      }
      ∷ record { name = "data"; mount_path = "/data"; sub_path = ""; read_only = false }
      ∷ [];
}

unfoldable pub storage : Authelia → Storage
unfolding base_storage add_file_users add_secrets
storage a =
    let settings = a.spec.settings in
    add_secrets settings.secrets (add_file_users settings.file_users_secret (base_storage a))

unfoldable pub build_deployment : Authelia → Bool → String → Deployment
unfolding storage authelia_file_env replicas_or text_or resources_or_default
build_deployment a oidc_enabled config_checksum =
    let d = a.spec.deployment in
    let st = storage a in
    record {
      meta = object_meta a.name a;
      replicas = replicas_or (pos 2) d.replicas;
      revision_history_limit = 1;
      selector = selector_for a;
      template_labels = selector_for a;
      template_annotations = ("heliop.snosr.se/config-checksum", config_checksum) ∷ [];
      enable_service_links = false;
      containers =
          record {
            name = "authelia";
            image = text_or "ghcr.io/authelia/authelia:4" d.image;
            image_pull_policy = text_or "IfNotPresent" d.image_pull_policy;
            command = "authelia" ∷ [];
            args = "--config=/configuration.yaml" ∷ [];
            env = authelia_file_env a.spec.settings oidc_enabled;
            resources = resources_or_default d.resources d.resources.requests d.resources.limits;
            ports = record { name = "http"; container_port = 9091; protocol = "TCP" } ∷ [];
            startup_probe = startup;
            liveness_probe = probe 0 30;
            readiness_probe = probe 0 5;
            volume_mounts = st.mounts;
          }
          ∷ [];
      volumes = st.volumes;
      ready_replicas = pos 0;
    }
