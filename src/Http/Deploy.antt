-- ===== src/Http/Deploy.antt =====
-- internal/http/handlers/deploy.go: models are deployed, deleted and listed.
pub mod Keep
pub mod Queued
pub mod Resolve
pub mod Accepted
use Prim.Native.Char.{Char}
use tark.Common.{
  String, Option, none, some, List, Bool, ◌||◌, Error, ◌==◌, ◌<>◌, if◌then◌else◌, find_first,
  nat_eq,
}
use tark.Models.{Uuid, ℤ, pos, negsuc, Cluster, Deployment}
use tark.Models.ClusterStatus
use tark.Models.DeploymentStatus
use tark.Text.{to_lower, underscores_to_dashes}
use tark.Queue.{deploy, DeployModelPayload, DeleteModelPayload, task_type_deploy_model}
use tark.Queue.Tasks.{new_deploy_model_task, new_delete_model_task}
use tark.Queue.Client.{enqueue_deploy, enqueue_delete_model}
use tark.Store.Methods.{
  get_organization_by_name, get_cluster, list_clusters, create_deployment, get_deployment,
  list_deployments,
}
use tark.Http.ApiError.{
  ApiError, Response, deploy_queued, delete_queued, deployments, respond, bad_request,
  not_found_code, internal, conflict_err, invalid_request_field, not_found, conflict, store_error,
  queue_error,
}
use tark.Http.Jobs.{create_job_record}
use tark.Http.Provision.{Incoming, accept}
use tark.System.Env.{Env}
use tark.System.Act.{Act, ◌>>=◌, ◌>>◌, pure, asks, call, check}

pub record DeployRequest : Type 0 where
  pub namespace : String
  pub name : String
  pub model_url : String
  pub node_port : ℤ
  pub cluster_id : String

abbrev default_model_url : String
default_model_url =
    "https://huggingface.co/TheBloke/TinyLlama-1.1B-Chat-v1.0-GGUF/resolve/main/tinyllama-1.1b-chat-v1.0.Q4_K_M.gguf?download=true"

unfoldable pub default_namespace : String → String
default_namespace namespace = if namespace == "" then "default" else namespace

unfoldable pub default_node_port : ℤ → ℤ
default_node_port (pos n) = if nat_eq n 0 then pos 30000 else pos n
default_node_port (negsuc n) = negsuc n

unfoldable pub normal_name : (Char → Char) → String → String
normal_name lower_rune name =
    if name == "" then "vllm" else to_lower lower_rune (underscores_to_dashes name)

-- Defaults for the fields that are left out.
unfoldable pub with_defaults : (Char → Char) → DeployRequest → DeployRequest
unfolding default_namespace default_node_port normal_name
with_defaults lower_rune req = record req {
  namespace = default_namespace req.namespace;
  name = normal_name lower_rune req.name;
  model_url = if req.model_url == "" then default_model_url else req.model_url;
  node_port = default_node_port req.node_port;
}

-- What resolveClusterID returns.
pub data Resolved : Type 0 where
  resolved : Uuid → Resolved
  refused : ApiError → Resolved

active_or_refused : Uuid → Cluster → Resolved
active_or_refused id c =
    if c.status == ClusterStatus.active
    then resolved id
    else refused (bad_request conflict ("cluster is not active (status: " <> c.status <> ")"))

pub resolve_given : String → Act Resolved
unfolding active_or_refused
resolve_given text =
    check (asks (λ e. e.parse_uuid text))
      (λ x. pure (refused (bad_request invalid_request_field "invalid clusterId")))
      λ id.
        check (get_cluster id) (λ x. pure (refused (bad_request not_found "cluster not found")))
          λ c. pure (active_or_refused id c)

first_or_refused : Option Cluster → Resolved
first_or_refused (some c) = resolved c.id
first_or_refused none =
    refused (bad_request invalid_request_field "no active cluster found; provide clusterId")

pub resolve_default : Act Resolved
unfolding first_or_refused
resolve_default =
    check (get_organization_by_name "default")
      (λ x. pure (refused (internal store_error "default organization not found" x)))
      λ org.
        check (list_clusters org.id)
          (λ x. pure (refused (internal store_error "failed to list clusters" x)))
          λ cs.
            pure
              (first_or_refused (find_first (λ (c : Cluster). c.status == ClusterStatus.active) cs))

unfoldable pub resolve_cluster_id : String → Act Resolved
unfolding resolve_given resolve_default
resolve_cluster_id raw = if raw == "" then resolve_default else resolve_given raw

-- From the cluster's id on: the deployment's row, the job record, the task and its queue.
pub deploy_to : DeployRequest → Uuid → Act Response
deploy_to req cluster_id = do
  id ← call (λ e n. e.new_uuid n)
  created ← call (λ e n. e.now n)
  updated ← call (λ e n. e.now n)
  let d : Deployment = record {
    id = id;
    cluster_id = cluster_id;
    model_name = req.name;
    namespace = req.namespace;
    node_port = req.node_port;
    model_url = req.model_url;
    replicas = 1;
    status = DeploymentStatus.pending;
    service_url = "";
    created_at = created;
    updated_at = updated;
  }
  check (create_deployment d)
      (λ x. pure (respond (internal store_error "failed to create deployment record" x)))
      λ done. do
        fresh ← call (λ e n. e.new_uuid n)
        job_id ← asks (λ e. e.show_uuid fresh)
        deployment_text ← asks (λ e. e.show_uuid id)
        cluster_text ← asks (λ e. e.show_uuid cluster_id)
        let payload : DeployModelPayload = record {
          job_id = job_id;
          deployment_id = deployment_text;
          cluster_id = cluster_text;
          namespace = req.namespace;
          name = req.name;
          model_url = req.model_url;
          node_port = req.node_port;
        }
        create_job_record job_id task_type_deploy_model (deploy payload) (some cluster_text)
            (some deployment_text)
        check (new_deploy_model_task payload)
            (λ x. pure (respond (internal queue_error "failed to create deploy task" x)))
            λ task.
              check (enqueue_deploy task ("deploy:" <> deployment_text))
                (λ x. pure (respond (internal queue_error "failed to enqueue deploy task" x)))
                λ sent. pure (record {
                  status = 202;
                  body = deploy_queued job_id ("deploy:" <> deployment_text) deployment_text;
                })

deploy_resolved : DeployRequest → Resolved → Act Response
unfolding deploy_to
deploy_resolved req (resolved id) = deploy_to req id
deploy_resolved req (refused x) = pure (respond x)

pub deploy_model : DeployRequest → Act Response
unfolding deploy_resolved
deploy_model given = do
  req ← asks (λ e. with_defaults e.lower_rune given)
  target ← resolve_cluster_id req.cluster_id
  deploy_resolved req target

pub post_deploy : Incoming DeployRequest → Act Response
post_deploy incoming = accept incoming deploy_model

pub handle_list_deployments : Act Response
handle_list_deployments =
    check list_deployments
      (λ x. pure (respond (internal store_error "failed to list deployments" x)))
      λ ds. pure (record { status = 200; body = deployments ds })

-- The statuses for which a DELETE is refused.
unfoldable pub is_ending : String → Bool
is_ending status =
    status == DeploymentStatus.deleted
    || status == DeploymentStatus.deleting
    || status == DeploymentStatus.orphaned

-- From the switch's default on; no job record is created.
unfoldable pub enqueue_delete : Uuid → Deployment → Act Response
unfolding default_namespace
enqueue_delete deployment_id d = do
  fresh ← call (λ e n. e.new_uuid n)
  job_id ← asks (λ e. e.show_uuid fresh)
  deployment_text ← asks (λ e. e.show_uuid d.id)
  cluster_text ← asks (λ e. e.show_uuid d.cluster_id)
  id_text ← asks (λ e. e.show_uuid deployment_id)
  let payload : DeleteModelPayload = record {
    job_id = job_id;
    deployment_id = deployment_text;
    cluster_id = cluster_text;
    namespace = default_namespace d.namespace;
    name = d.model_name;
  }
  check (new_delete_model_task payload)
      (λ x. pure (respond (internal queue_error "failed to create delete task" x)))
      λ task.
        check (enqueue_delete_model task ("delete:" <> id_text))
          (λ x. pure (respond (internal queue_error "failed to enqueue delete task" x)))
          λ sent.
            pure
              (record { status = 202; body = delete_queued job_id ("delete:" <> id_text) id_text })

unfoldable pub delete_found : Uuid → Deployment → Act Response
unfolding is_ending enqueue_delete
delete_found deployment_id d =
    if is_ending d.status
    then pure (
        respond
          (conflict_err conflict ("deployment is already in terminal state (" <> d.status <> ")")))
    else enqueue_delete deployment_id d

unfoldable pub handle_delete_deployment : String → Act Response
unfolding delete_found
handle_delete_deployment id_param =
    check (asks (λ e. e.parse_uuid id_param))
      (λ x. pure (respond (bad_request not_found "invalid deployment id")))
      λ id.
        check (get_deployment id)
          (λ x. pure (respond (not_found_code not_found "deployment not found")))
          λ d. delete_found id d
