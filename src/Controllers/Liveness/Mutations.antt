-- ===== src/Controllers/Liveness/Mutations.antt =====
-- The closures that internal/controller/authelia_controller.go gives to CreateOrUpdate fail only where
-- the owner cannot be set or the crypto packages fail.
use heliop.Base.{refl}
use heliop.Base.Result.{Result, IsOk, IsOk->>=}
use heliop.Api.{Authelia}
use heliop.Kubernetes.{ObjectMeta, Secret, ConfigMap, Service, Deployment}
use heliop.Mutations.{mutate_config_map, mutate_service, mutate_deployment, mutate_core_secret}
use heliop.Secrets.{Crypto, IsReliable}
use heliop.Secrets.Totality.{generated_core_secret_data_total}

module _ (own : ObjectMeta → Result ObjectMeta) (owns : (meta : ObjectMeta) → IsOk (own meta))
    {S : Type 0} (s : S) where
  pub mutate_config_map-IsOk : (desired x : ConfigMap) → IsOk (mutate_config_map own desired x s)
  unfolding mutate_config_map
  mutate_config_map-IsOk desired x = IsOk->>= (own _) _ (owns _) (λ meta. (_, refl))

  pub mutate_service-IsOk : (desired x : Service) → IsOk (mutate_service own desired x s)
  unfolding mutate_service
  mutate_service-IsOk desired x = IsOk->>= (own _) _ (owns _) (λ meta. (_, refl))

  pub mutate_deployment-IsOk : (desired x : Deployment) → IsOk (mutate_deployment own desired x s)
  unfolding mutate_deployment
  mutate_deployment-IsOk desired x = IsOk->>= (own _) _ (owns _) (λ meta. (_, refl))

pub mutate_core_secret-IsOk :
    (c : Crypto) (reliable : IsReliable c) (own : ObjectMeta → Result ObjectMeta)
    → ((meta : ObjectMeta) → IsOk (own meta))
    → (a : Authelia) (x : Secret) (s : c.Source) → IsOk (mutate_core_secret c own a x s)
unfolding mutate_core_secret
mutate_core_secret-IsOk c reliable own owns a x s =
    IsOk->>= _ _ (generated_core_secret_data_total c reliable x.contents s)
      (λ (n, t). IsOk->>= (own _) _ (owns _) (λ meta. (_, refl)))
