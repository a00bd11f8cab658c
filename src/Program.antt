-- ===== src/Program.antt =====
-- The two processes over their shared database: the routes of internal/http/router.go and the handlers
-- that internal/worker/server.go registers.
pub mod Reach
pub mod Accepted
use tark.Common.{ℕ, List, [], ◌∷◌, String, Option, none, some, Result, ◌==◌, if◌then◌else◌}
use tark.Queue.{
  Task, task_type_provision_cluster, task_type_deploy_model, task_type_delete_model,
  task_type_destroy_cluster, queue_critical, queue_infra_provision, queue_model_deploy,
  queue_cleanup,
}
use tark.Http.ApiError.{Response}
use tark.Http.Provision.{
  Incoming, ProvisionRequest, handle_provision, handle_destroy, handle_list_clusters,
}
use tark.Http.Deploy.{DeployRequest, post_deploy, handle_list_deployments, handle_delete_deployment}
use tark.Http.Jobs.{get_job_status, list_all_jobs, get_status_by_job_id}
use tark.Worker.Shared.{Server}
use tark.Worker.Provision.{handle_provision_cluster_task}
use tark.Worker.Deploy.{handle_deploy_model_task}
use tark.Worker.Delete.{handle_delete_model_task}
use tark.Worker.Destroy.{handle_destroy_cluster_task}
use tark.System.Act.{Act}

-- One constructor for each route under /api.
pub data Request : Type 0 where
  post_deploy_request : Incoming DeployRequest → Request
  post_provision : Incoming ProvisionRequest → Request
  post_destroy : Incoming String → Request
  get_job get_status : String → Request
  get_jobs get_clusters get_deployments : Request
  delete_deployment : String → Request

unfoldable pub serve : Request → Act Response
serve (post_deploy_request incoming) = post_deploy incoming
serve (post_provision incoming) = handle_provision incoming
serve (post_destroy incoming) = handle_destroy incoming
serve (get_job id) = get_job_status id
serve (get_status id) = get_status_by_job_id id
serve get_jobs = list_all_jobs
serve get_clusters = handle_list_clusters
serve get_deployments = handle_list_deployments
serve (delete_deployment id) = handle_delete_deployment id

-- The queues that NewServer's worker takes tasks from, with their priorities.
abbrev pub server_queues : List (String × ℕ)
server_queues =
    (queue_critical, 10)
    ∷ (queue_infra_provision, 6)
    ∷ (queue_model_deploy, 6)
    ∷ (queue_cleanup, 4)
    ∷ []

-- registerHandlers: the handler of a task type, if there is one.
unfoldable pub handler : Server → String → Option (Task → Act (Result (Unit {0})))
handler s task_type =
    if task_type == task_type_provision_cluster
    then some (handle_provision_cluster_task s)
    else if task_type == task_type_deploy_model
    then some (handle_deploy_model_task s)
    else if task_type == task_type_delete_model
    then some (handle_delete_model_task s)
    else if task_type == task_type_destroy_cluster
    then some handle_destroy_cluster_task
    else none
