-- ===== src/Queue.antt =====
-- internal/queue/queues.go, internal/worker/tasks/tasks.go and internal/worker/client.go: the queues,
-- the tasks and their payloads.
pub mod Tasks
pub mod Client
use tark.Common.{ℕ, String, List}
use tark.Models.{ℤ}

-- the names of the queues
abbrev pub queue_critical : String
queue_critical = "critical"

abbrev pub queue_infra_provision : String
queue_infra_provision = "infra-provision"

abbrev pub queue_model_deploy : String
queue_model_deploy = "model-deploy"

abbrev pub queue_cleanup : String
queue_cleanup = "cleanup"

-- the task types
abbrev pub task_type_provision_cluster : String
task_type_provision_cluster = "cluster:provision"

abbrev pub task_type_deploy_model : String
task_type_deploy_model = "model:deploy"

abbrev pub task_type_delete_model : String
task_type_delete_model = "model:delete"

abbrev pub task_type_destroy_cluster : String
task_type_destroy_cluster = "cluster:destroy"

pub record ProvisionClusterPayload : Type 0 where
  pub job_id : String
  pub cluster_id : String
  pub organization_id : String
  pub stack_name : String
  pub infra_dir : String
  pub ssh_key_path : String
  pub config : List (String × String)

pub record DeployModelPayload : Type 0 where
  pub job_id : String
  pub deployment_id : String
  pub cluster_id : String
  pub namespace : String
  pub name : String
  pub model_url : String
  pub node_port : ℤ

pub record DeleteModelPayload : Type 0 where
  pub job_id : String
  pub deployment_id : String
  pub cluster_id : String
  pub namespace : String
  pub name : String

pub record DestroyClusterPayload : Type 0 where
  pub job_id : String
  pub cluster_id : String
  pub stack_name : String
  pub infra_dir : String

-- What is handed to json.Marshal.
pub data Payload : Type 0 where
  provision : ProvisionClusterPayload → Payload
  deploy : DeployModelPayload → Payload
  delete : DeleteModelPayload → Payload
  destroy : DestroyClusterPayload → Payload

-- asynq.Task
pub record Task : Type 0 where
  pub task_type : String
  pub payload : String

-- asynq.Queue, asynq.TaskID, asynq.MaxRetry and asynq.Timeout (in seconds)
pub record EnqueueOptions : Type 0 where
  pub queue : String
  pub task_id : String
  pub max_retry : ℕ
  pub timeout : ℕ
