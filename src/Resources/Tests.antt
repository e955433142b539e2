-- ===== src/Resources/Tests.antt =====
-- The objects of internal/controller/resources.go for an example, and the theorems at it.
use mathlib.Core.List.{mem-cons_self, mem-cons_of_mem}
use heliop.Base.{◌<>◌, true, none, some, [], ◌∷◌, ◌≡◌, refl, Mem, All, Perm}
use heliop.Json.{str}
use heliop.Api.{pos, Authelia, AutheliaSecret, SecretKeyRef}
use heliop.Names.{is_file_secret, secret_volume_name, secret_mount_path}
use heliop.Kubernetes.{secret}
use heliop.Resources.{build_deployment, storage, literal}
use heliop.Resources.Mounts.{
  volume_names, mount_names, IsMounted, build_deployment-mounts, build_deployment-file_secret,
}

abbrev pub smtp_key : SecretKeyRef
smtp_key = record { name = "smtp"; key = "password" }

abbrev pub smtp : AutheliaSecret
smtp = record { name = "SMTP_FILE"; secret = some smtp_key }

abbrev pub main : Authelia
main = record {
  name = "main";
  namespace = "auth";
  spec = record {
    hostname = "auth.example.org";
    deployment = record {
      replicas = none;
      image = "";
      image_pull_policy = "";
      resources = record { requests = none; limits = none };
      existing_secret = "";
      volume_claim_template = some (str "claim");
    };
    settings = record {
      additional_config = none;
      file_users_secret = some (record { name = "users"; key = "users.yml" });
      secrets = record { name = "UNSET"; secret = none } ∷ smtp ∷ [];
    };
  };
  status = record { ready_replicas = pos 0; oidc_clients = []; access_control_rules = [] };
}

main_volumes :
    volume_names (storage main).volumes
    ≡ "authelia-secret" ∷ "config" ∷ "data" ∷ "file-backend" ∷ secret_volume_name "SMTP_FILE" ∷ []
unfolding storage is_file_secret
main_volumes = refl

build_deployment-mounts_example :
    let d = build_deployment main true "sum" in
    All (λ c. Perm (mount_names c.volume_mounts) (volume_names d.volumes)) d.containers
build_deployment-mounts_example = build_deployment-mounts main true "sum"

build_deployment-file_secret_example :
    let d = build_deployment main true "sum" in
    All
      (λ c.
        IsMounted d.volumes c.volume_mounts
          (secret_volume_name "SMTP_FILE")
          "smtp"
          (secret_mount_path "SMTP_FILE")
        × Mem (literal "SMTP_FILE" (secret_mount_path "SMTP_FILE" <> "/" <> "password")) c.env)
      d.containers
unfolding is_file_secret
build_deployment-file_secret_example =
    build_deployment-file_secret main true "sum" smtp smtp_key (mem-cons_of_mem _ mem-cons_self)
      refl refl
