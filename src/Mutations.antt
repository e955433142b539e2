-- ===== src/Mutations.antt =====
-- What the reconcile methods of internal/controller/authelia_controller.go hand to CreateOrUpdate: the
-- object with its key only, and the mutation. `own` stands for SetControllerReference. A mutation that
-- fails gives nothing to write.
use heliop.Base.{String, false, none, some, []}
use heliop.Base.Options.{get_or}
use heliop.Base.Result.{Result, ok, ◌>>=◌}
use heliop.Api.{pos, Authelia}
use heliop.Kubernetes.{ObjectMeta, Secret, ConfigMap, Service, Deployment}
use heliop.Names.{labels_for}
use heliop.Secrets.{Crypto, generated_core_secret_data}

abbrev pub blank_meta : String → String → ObjectMeta
blank_meta namespace name = record {
  name = name;
  namespace = namespace;
  labels = none;
  owner = none;
}

abbrev pub blank_secret : String → String → Secret
blank_secret namespace name = record {
  meta = blank_meta namespace name;
  type = "";
  contents = none;
}

abbrev pub blank_config_map : String → String → ConfigMap
blank_config_map namespace name = record { meta = blank_meta namespace name; contents = [] }

abbrev pub blank_service : String → String → Service
blank_service namespace name = record {
  meta = blank_meta namespace name;
  type = "";
  selector = [];
  ports = [];
}

abbrev pub blank_deployment : String → String → Deployment
blank_deployment namespace name = record {
  meta = blank_meta namespace name;
  replicas = pos 0;
  revision_history_limit = 0;
  selector = [];
  template_labels = [];
  template_annotations = [];
  enable_service_links = false;
  containers = [];
  volumes = [];
  ready_replicas = pos 0;
}

-- `Data` of a ConfigMap, `Type`, `Selector` and `Ports` of a Service and `Spec` of a Deployment are
-- those of the desired object, the labels too; the rest stays.
module _ (own : ObjectMeta → Result ObjectMeta) {S : Type 0} where
  unfoldable pub mutate_config_map : ConfigMap → ConfigMap → S → Result (ConfigMap × S)
  mutate_config_map desired cm s = do
    meta ← own (record cm.meta { labels = desired.meta.labels })
    ok (record { meta = meta; contents = desired.contents }, s)

  unfoldable pub mutate_service : Service → Service → S → Result (Service × S)
  mutate_service desired svc s = do
    meta ← own (record svc.meta { labels = desired.meta.labels })
    ok (record desired { meta = meta }, s)

  unfoldable pub mutate_deployment : Deployment → Deployment → S → Result (Deployment × S)
  mutate_deployment desired dep s = do
    meta ← own (record dep.meta { labels = desired.meta.labels })
    ok (record desired { meta = meta; ready_replicas = dep.ready_replicas }, s)

module _ (c : Crypto) (own : ObjectMeta → Result ObjectMeta) where
  unfoldable pub mutate_core_secret : Authelia → Secret → c.Source → Result (Secret × c.Source)
  unfolding generated_core_secret_data
  mutate_core_secret a secret s = do
    (n, t) ← generated_core_secret_data c secret.contents s
    meta ← own (record secret.meta { labels = some (get_or (labels_for a) secret.meta.labels) })
    ok (record { meta = meta; type = "Opaque"; contents = some n }, t)
