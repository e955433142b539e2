-- ===== src/Resources/Deployments.antt =====
-- How the objects of internal/controller/resources.go refer to each other, and to the core secret.
use mathlib.Core.List.{mem-cons_of_mem, mem-cons_self}
use heliop.Base.{
  String, ◌<>◌, Bool, true, false, Option, none, some, ◌==◌, map, Mem, All, ◌≡◌, refl,
}
use heliop.Base.Dict.{Dict}
use heliop.Base.Result.{ok}
use heliop.Json.{Value}
use heliop.Api.{AutheliaSettings, Authelia}
use heliop.Kubernetes.{
  ServicePort, EnvVar, VolumeMount, VolumeSource, empty_dir, persistent_volume_claim, Volume,
  ContainerPort, Container, Deployment,
}
use heliop.Resources.{build_deployment, build_service, build_data_pvc, authelia_file_env}
use heliop.Secrets.{Crypto, IsSound, bytes_at, generated_core_secret_data}
use heliop.Secrets.Once.{core_keys, generated_core_secret_data_lem}

-- The Service leads to the pods of the Deployment, and to a port that each container names.
pub record IsServed (a : Authelia) (d : Deployment) : Type 0 where
  pub namespace : d.meta.namespace ≡ (build_service a).meta.namespace
  pub owned : d.selector ≡ d.template_labels
  pub selected : (build_service a).selector ≡ d.template_labels
  pub ports :
      All
        (λ (c : Container).
          All
            (λ (p : ServicePort). Mem p.target_port (map (λ (q : ContainerPort). q.name) c.ports))
            (build_service a).ports)
        d.containers

-- The Service selects exactly the labels of the pods that the Deployment owns, in its namespace, and
-- each port of the Service leads to a named port of each container.
pub build_deployment-IsServed :
    (a : Authelia) (oidc_enabled : Bool) (config_checksum : String)
    → IsServed a (build_deployment a oidc_enabled config_checksum)
unfolding build_deployment build_service
build_deployment-IsServed a oidc_enabled config_checksum = record {
  namespace = refl;
  owned = refl;
  selected = refl;
  ports = ((mem-cons_self, tt), tt);
}

abbrev pub volume : String → VolumeSource → Volume
volume name source = record { name = name; source = source }

abbrev pub mount : String → String → String → Bool → VolumeMount
mount name path sub_path read_only = record {
  name = name;
  mount_path = path;
  sub_path = sub_path;
  read_only = read_only;
}

-- The pod has the volume, and each container mounts it there.
abbrev pub IsBacked : Deployment → Volume → VolumeMount → Type 0
IsBacked d v m = Mem v d.volumes × All (λ (c : Container). Mem m c.volume_mounts) d.containers

-- The volume of the data: the claim that `buildDataPVC` makes where there is a template, else one that
-- is empty for each pod.
abbrev pub data_of : Authelia → Option Value → VolumeSource
data_of a none = empty_dir
data_of a (some _) = persistent_volume_claim (build_data_pvc a).meta.name

-- The variables point into the core Secret, where every generated key has a value: with OIDC clients
-- the file of each of the four keys, under the mount path of the Secret, is a variable's value.
pub authelia_file_env-core_keys :
    (settings : AutheliaSettings) (c : Crypto) (sound : IsSound c)
    → (m : Option (Dict String)) (s t : c.Source) (n : Dict String)
    → generated_core_secret_data c m s ≡ ok (n, t)
    → All
        (λ k.
          Mem ("/secrets/" <> k) (map (λ (v : EnvVar). v.value) (authelia_file_env settings true))
          × (bytes_at k n == "") ≡ false)
        core_keys
unfolding authelia_file_env
authelia_file_env-core_keys settings c sound m s t n e =
    let filled = (generated_core_secret_data_lem c sound m s t n e).0.filled in
    let k1 = mem-cons_of_mem _ mem-cons_self in
    let k2 = mem-cons_of_mem _ (mem-cons_of_mem _ mem-cons_self) in
    let k3 = mem-cons_of_mem _ (mem-cons_of_mem _ (mem-cons_of_mem _ mem-cons_self)) in
    let k4 =
      mem-cons_of_mem _ (mem-cons_of_mem _ (mem-cons_of_mem _ (mem-cons_of_mem _ mem-cons_self))) in
    ((k1, filled _ refl), ((k2, filled _ refl), ((k3, filled _ refl), ((k4, filled _ refl), tt))))
