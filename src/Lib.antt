-- ===== src/Lib.antt =====
-- heliop is a Kubernetes operator for Authelia: it turns Authelia and AutheliaOAuthClient resources,
-- and annotated Ingresses, into a configuration, a Secret, a Service and a Deployment. This library
-- models its logic.
--
-- The parts, in the order in which a reconciliation uses them:
-- - Api: the custom resources, api/v1alpha1/*_types.go.
-- - Json: the values of `encoding/json` and the maps `map[string]any` that the program edits.
-- - Ingress: internal/controller/ingress.go. `ingress_domains` is ingressDomains,
--   `ingress_access_rules` is ingressAccessRules, `sort_access_rules` is sortAccessRules;
--   Ingress/Collect has collectIngressRules of authelia_controller.go.
-- - Render: internal/controller/render.go. `layer` is the writes of renderConfig in their order,
--   `update_child` a write through childMap, `client_to_map` is clientToMap.
-- - Secrets: internal/controller/secrets.go. `generated_core_secret_data` is generatedCoreSecretData;
--   the random source is a state that every operation passes on. Secrets/Digest reads the digests that
--   hashClientSecret prints by a description of their format.
-- - Kubernetes, Names and Resources: internal/controller/resources.go. `secret_volume_name` is
--   secretVolumeName, `build_deployment` is buildDeployment; Resources/Mounts and
--   Resources/Deployments have the proofs.
-- - OauthClients: internal/controller/autheliaoauthclient_controller.go, `mutate_client_secret` is the
--   mutation of the client Secret and `client_data` what it does to the data; and, of
--   authelia_controller.go, `collect_clients` (collectClients), `client_targets` (clientTargets) and
--   `map_client_to_authelia` (mapClientToAuthelia).
-- - Cluster: the calls of the cluster's API that both controllers make, as the record `ClusterClient`
--   over an unknown state; `IsCluster` is what they document, `IsCurrent` that CreateOrUpdate reads the
--   current object, and `IsUp` that the calls succeed. Cluster/Shared has a cluster in which others
--   (users, the kubelet, the other controller) take steps before and after each call of a run.
-- - Mutations and Controllers: `mutate_core_secret` and the others are the closures that
--   authelia_controller.go gives to CreateOrUpdate; `reconcile` is Reconcile of that file,
--   `write_objects` the five writes in its middle, `reconcile_data_pvc` reconcileDataPVC and so on;
--   `reconcile_client` is Reconcile of autheliaoauthclient_controller.go, `map_ingress_to_authelia` is
--   mapIngressToAuthelia. Each is an action on the states of the cluster and of the random source that
--   keeps what was written before an error. Controllers/Runs has sequences of runs of both.
-- - Writes: the abstract specification of the writes of both controllers, as a relation on the states
--   of the cluster, with what its closure keeps. Controllers/Moves and Controllers/Refinement relate
--   the code to it; Controllers/Success and Controllers/Reconciled say what a run that succeeds
--   leaves, Controllers/Steady what a second one does, Controllers/Refused what one that fails early
--   does, Controllers/Liveness when one succeeds, and
--   Controllers/Handover how the one controller waits for the other.
--   Controllers/Example is a cluster in memory with all that is assumed of one, and
--   Controllers/Disturbed the same with someone else who writes to it during the runs.
-- - Controllers/Watches: the two SetupWithManager methods, as what they hand to the builder of
--   controller-runtime; `authelia_setup` is that of authelia_controller.go and `client_setup` that of
--   autheliaoauthclient_controller.go. Which events make which requests follows from what is
--   documented of the builder's handlers. Controllers/Watches/Queue has the requests that wait between
--   the events and the runs, as steps in any order.
-- - Manager: cmd/main.go. `manager_options` is what the flags become, `init` is init with
--   the types of api/v1alpha1/groupversion_info.go, `startup` the steps from NewManager to Start,
--   `setup_authelia` and `setup_client` the calls of SetupWithManager, `main` the exit status of the
--   process.
-- Base has what they share: tests, dictionaries, sorting, `Result`, a value, an error or a panic, and
-- `Action`, a change of a state with a result.
--
-- Parameters stand for code outside of the repository: the parser of `encoding/json` (a function
-- into `Option Value`), `yaml.Marshal`, Go's crypto packages (the record `Crypto`, with what they
-- document in `IsSound`, and in `IsReliable` that they do not fail), the calls of
-- controller-runtime (`ClusterClient` and, of cmd/main.go, `Runtime`, which has `flag.Parse` too)
-- and its builder (`Builder`), and SHA-256 and hexadecimal text. A read of the cluster may be old,
-- and a write that fails may have been applied. What `Writes` keeps holds of any interleaving of
-- the writes of both controllers with the steps of others (`IsShared`, `Joint`), among which may be
-- those of another run; the results on what a run that succeeds leaves assume that no one else
-- writes meanwhile (`IsCluster`), and all of them assume `IsSound` where data is generated. A Go
-- map is an association list in which the first entry of a key counts, its iteration order that of
-- the list; a nil map or pointer is `none`. Byte slices are texts. All loops run over lists, so no
-- fuel is needed. `sort.Slice` and `sort.SliceStable` are insertion sorts.
--
-- Not modelled: the generated deep copies, and the parsing of the flags and logging, which are calls of
-- libraries.
pub mod Base
pub mod Json
pub mod Cluster
pub mod Controllers
pub mod Kubernetes
pub mod Manager
pub mod Mutations
pub mod Api
pub mod Ingress
pub mod Names
pub mod OauthClients
pub mod Render
pub mod Resources
pub mod Secrets
pub mod Writes
