-- ===== src/Kube/Objects.antt =====
-- The Kubernetes objects that internal/kube/vllm.go builds: the fields that it sets.
use tark.Common.{ℕ, String, List}
use tark.Models.{ℤ}

pub record VolumeMount : Type 0 where
  pub name : String
  pub mount_path : String

-- resource quantities by their texts: (resource, quantity)
pub record Container : Type 0 where
  pub name : String
  pub image : String
  pub command : List String
  pub args : List String
  pub ports : List ℕ
  pub volume_mounts : List VolumeMount
  pub requests : List (String × String)
  pub limits : List (String × String)

pub record Workload : Type 0 where
  pub name : String
  pub namespace : String
  pub labels : List (String × String)
  pub replicas : ℕ
  pub selector : List (String × String)
  pub template_labels : List (String × String)
  pub volumes : List String
  pub init_containers : List Container
  pub containers : List Container

pub record ServiceObject : Type 0 where
  pub name : String
  pub namespace : String
  pub labels : List (String × String)
  pub selector : List (String × String)
  pub port : ℕ
  pub target_port : ℕ
  pub node_port : ℤ
  pub service_type : String

-- apps/v1 Deployments and core/v1 Services
pub data KubeKind : Type 0 where
  deployments services : KubeKind

pub data KubeObject : Type 0 where
  workload : Workload → KubeObject
  service : ServiceObject → KubeObject
