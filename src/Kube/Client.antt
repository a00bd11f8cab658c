-- ===== src/Kube/Client.antt =====
-- internal/kube: the client of a cluster, and the calls that make and remove a model's objects.
pub mod Keep
pub mod Ensured
use tark.Common.{
  String, Option, none, some, List, [], ◌∷◌, Error, Result, ok, err, ◌==◌, ◌<>◌, if◌then◌else◌,
}
use tark.Models.{Bytes, ℤ}
use tark.Kube.Objects.{
  VolumeMount, Container, Workload, ServiceObject, KubeKind, deployments, services, KubeObject,
  workload, service,
}
use tark.System.Env.{Env, KubeError, not_found, other}
use tark.System.Act.{Act, Event, pure, asks, request, from_fault, check, ◌>>=◌}

pub record ModelConfig : Type 0 where
  pub name : String
  pub model_url : String
  pub node_port : ℤ

-- The client's timeout and its TLS settings are fixed, and leave no choice to model.
pub new_from_kubeconfig : Bytes → Act (Result (Unit {0}))
new_from_kubeconfig config =
    check (asks (λ e. from_fault (e.kube_client_config config)))
      (λ x. pure (err ("failed to create client config from bytes: " <> x)))
      λ _.
        check (asks (λ e. from_fault (e.kube_rest_config config)))
          (λ x. pure (err ("failed to get rest config: " <> x)))
          λ _.
            check (asks (λ e. from_fault (e.kube_clientset config)))
              (λ x. pure (err ("failed to create kubernetes client: " <> x))) λ _. pure (ok tt)

-- `if name == "" { name = "vllm" }`
unfoldable pub default_name : String → String
default_name name = if name == "" then "vllm" else name

abbrev data_mount : VolumeMount
data_mount = record { name = "model-storage"; mount_path = "/data" }

abbrev downloader : String → Container
downloader model_url = record {
  name = "model-downloader";
  image = "curlimages/curl:latest";
  command = "curl" ∷ "-L" ∷ "-o" ∷ "/data/model.gguf" ∷ model_url ∷ [];
  args = [];
  ports = [];
  volume_mounts = data_mount ∷ [];
  requests = [];
  limits = [];
}

abbrev model_server : Container
model_server = record {
  name = "llama-cpp";
  image = "ghcr.io/ggml-org/llama.cpp:server-b4731";
  command = [];
  args = "-m" ∷ "/data/model.gguf" ∷ "--host" ∷ "0.0.0.0" ∷ "--port" ∷ "8000" ∷ "-c" ∷ "512" ∷ [];
  ports = 8000 ∷ [];
  volume_mounts = data_mount ∷ [];
  requests = ("memory", "512Mi") ∷ ("cpu", "500m") ∷ [];
  limits = ("memory", "2Gi") ∷ ("cpu", "2") ∷ [];
}

unfoldable pub model_workload : String → String → ModelConfig → Workload
model_workload namespace name cfg = record {
  name = name;
  namespace = namespace;
  labels = ("app", name) ∷ [];
  replicas = 1;
  selector = ("app", name) ∷ [];
  template_labels = ("app", name) ∷ [];
  volumes = "model-storage" ∷ [];
  init_containers = downloader cfg.model_url ∷ [];
  containers = model_server ∷ [];
}

unfoldable pub model_service : String → String → ModelConfig → ServiceObject
model_service namespace name cfg = record {
  name = name;
  namespace = namespace;
  labels = ("app", name) ∷ [];
  selector = ("app", name) ∷ [];
  port = 8000;
  target_port = 8000;
  node_port = cfg.node_port;
  service_type = "NodePort";
}

unfoldable pub from_kube : Option KubeError → Result (Unit {0})
from_kube none = ok tt
from_kube (some (not_found x)) = err x
from_kube (some (other x)) = err x

unfoldable pub create : KubeObject → Act (Result (Unit {0}))
unfolding from_kube
create object = request (Event.kube_create object) (λ e n. from_kube (e.kube_create n object))

-- What follows a Get: the object is there, or is created if the server has none.
unfoldable pub unless_found : Option KubeError → Act (Result (Unit {0})) → Act (Result (Unit {0}))
unless_found none make = pure (ok tt)
unless_found (some (not_found x)) make = make
unless_found (some (other x)) make = pure (err x)

unfoldable pub ensure : KubeKind → String → String → KubeObject → Act (Result (Unit {0}))
unfolding unless_found create
ensure kind namespace name object = do
  found ← request (Event.kube_get kind namespace name) (λ e n. e.kube_get n kind namespace name)
  unless_found found (create object)

unfoldable pub deploy_model : String → ModelConfig → Act (Result (Unit {0}))
unfolding ensure default_name
deploy_model namespace cfg =
    let name = default_name cfg.name in
    check (ensure deployments namespace name (workload (model_workload namespace name cfg)))
      (λ x. pure (err x))
      λ _. ensure services namespace name (service (model_service namespace name cfg))

-- An object that is not there counts as deleted.
unfoldable pub unless_failed : Option KubeError → Result (Unit {0})
unless_failed none = ok tt
unless_failed (some (not_found x)) = ok tt
unless_failed (some (other x)) = err x

unfoldable pub remove : KubeKind → String → String → Act (Result (Unit {0}))
unfolding unless_failed
remove kind namespace name =
    request (Event.kube_delete kind namespace name)
      (λ e n. unless_failed (e.kube_delete n kind namespace name))

unfoldable pub delete_model : String → String → Act (Result (Unit {0}))
unfolding remove default_name
delete_model namespace name =
    let target = default_name name in
    check (remove services namespace target) (λ x. pure (err x))
      λ _. remove deployments namespace target
