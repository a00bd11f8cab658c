-- ===== src/Program/Accepted.antt =====
-- What a 202 of the API promises.
use tark.Common.{ℕ, String, Option, none, some, ◌≡◌, refl, Result}
use mathlib.Core.List.{Memᴰ}
use mathlib.Core.List.Memᴰ.{head, tail}
use tark.Queue.{
  Task, task_type_provision_cluster, task_type_deploy_model, task_type_delete_model,
  task_type_destroy_cluster, queue_infra_provision, queue_model_deploy, queue_cleanup,
}
use tark.Http.Queued.{Accepts, Queued}
use tark.Http.Provision.Queued.{
  handle_provision-Accepts, handle_destroy-Accepts, handle_list_clusters-Accepts,
}
use tark.Http.Deploy.Queued.{
  post_deploy-Accepts, handle_delete_deployment-Accepts, handle_list_deployments-Accepts,
}
use tark.Http.Jobs.Queued.{
  get_job_status-Accepts, get_status_by_job_id-Accepts, list_all_jobs-Accepts,
}
use tark.Program.{
  Request, post_deploy_request, post_provision, post_destroy, get_job, get_status, get_jobs,
  get_clusters, get_deployments, delete_deployment, serve, handler, server_queues,
}
use tark.System.Env.{Env}
use tark.System.Act.{Act, World}
use tark.Worker.Shared.{Server}
use tark.Http.ApiError.{Response}

-- The type and the queue of the task of a request that is carried out later.
abbrev pub task_of : Request → Option (String × String)
task_of (post_deploy_request incoming) = some (task_type_deploy_model, queue_model_deploy)
task_of (post_provision incoming) = some (task_type_provision_cluster, queue_infra_provision)
task_of (post_destroy incoming) = some (task_type_destroy_cluster, queue_cleanup)
task_of (delete_deployment id) = some (task_type_delete_model, queue_model_deploy)
task_of _ = none

-- The last call has put a task for the request on a queue that the worker takes tasks from, and the
-- worker has a handler for it.
pub record IsTaken (s : Server) (r : Request) (e : Env) (w : World) : Type 0 where
  pub task_type : String
  pub queue : String
  pub priority : ℕ
  pub asked : task_of r ≡ some (task_type, queue)
  pub queued : Queued task_type queue e w
  pub served : Memᴰ (queue, priority) server_queues
  pub handled : (h : Task → Act (Result (Unit {0}))) × (handler s task_type ≡ some h)

never : {e : Env} {w : World} {A : Type 0} → Queued "a" "" e w → Queued "" "" e w → A
never a b = cc (a.sent, b.sent, a.of_type, b.of_type)

reads :
    (m : Act Response) (e : Env) (w : World) {A : Type 0}
    → ((t q : String) → Accepts t q m)
    → (m e w).0.status ≡ 202
    → A
reads m e w h status = never ((h "a" "").at e w status) ((h "" "").at e w status)

-- Whatever the outside answers, a request of the API that is answered with 202 is one to deploy, provision,
-- destroy or delete, and its last call, which returned nil, has put a task of its type on its queue;
-- the worker takes tasks from that queue and has a handler for them.
pub serve-IsTaken :
    (s : Server) (r : Request) (e : Env) (w : World)
    → (serve r e w).0.status ≡ 202
    → IsTaken s r e (serve r e w).1
unfolding serve handler
serve-IsTaken s (post_deploy_request incoming) e w status = record {
  task_type = task_type_deploy_model;
  queue = queue_model_deploy;
  priority = 6;
  asked = refl;
  queued = (post_deploy-Accepts incoming).at e w status;
  served = tail (tail (head refl));
  handled = (_, refl);
}
serve-IsTaken s (post_provision incoming) e w status = record {
  task_type = task_type_provision_cluster;
  queue = queue_infra_provision;
  priority = 6;
  asked = refl;
  queued = (handle_provision-Accepts incoming).at e w status;
  served = tail (head refl);
  handled = (_, refl);
}
serve-IsTaken s (post_destroy incoming) e w status = record {
  task_type = task_type_destroy_cluster;
  queue = queue_cleanup;
  priority = 4;
  asked = refl;
  queued = (handle_destroy-Accepts incoming).at e w status;
  served = tail (tail (tail (head refl)));
  handled = (_, refl);
}
serve-IsTaken s (delete_deployment id) e w status = record {
  task_type = task_type_delete_model;
  queue = queue_model_deploy;
  priority = 6;
  asked = refl;
  queued = (handle_delete_deployment-Accepts id).at e w status;
  served = tail (tail (head refl));
  handled = (_, refl);
}
serve-IsTaken s (get_job id) e w status = reads _ e w (λ t q. get_job_status-Accepts t q id) status
serve-IsTaken s (get_status id) e w status =
    reads _ e w (λ t q. get_status_by_job_id-Accepts t q id) status
serve-IsTaken s get_jobs e w status = reads _ e w list_all_jobs-Accepts status
serve-IsTaken s get_clusters e w status = reads _ e w handle_list_clusters-Accepts status
serve-IsTaken s get_deployments e w status = reads _ e w handle_list_deployments-Accepts status
