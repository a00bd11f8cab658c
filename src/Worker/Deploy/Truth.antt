-- ===== src/Worker/Deploy/Truth.antt =====
-- A deploy task's job row says how the handler ended.
use tark.Common.{String, ◌≡◌, ap, ok}
use tark.Models.{Uuid}
use tark.Queue.{Task, DeployModelPayload}
use tark.Queue.Tasks.Parse.{parse_deploy_model_payload-ok}
use tark.Worker.Shared.{Server}
use tark.Worker.Shared.Truth.{Truthful, Reads, truth_rules}
use tark.Worker.Deploy.{
  Health, healthy, timed_out, cancelled, finish, deploy, handle_deploy_model_task,
}
use tark.System.Env.{Env}
use tark.System.Act.{World}
use tark.System.Ensures.{IsUp, Ensures, Ensures-check_known}

module _ {H : Env → Type 0} (up : (e : Env) → H e → IsUp e) (s : Server)
    (payload : DeployModelPayload) (id : Uuid) where
  finish-Truthful :
      (url : String) (h : Health) → Ensures H (Truthful payload.job_id) (finish s payload id url h)
  unfolding finish
  finish-Truthful url healthy = search (truth_rules, up) depth 8
  finish-Truthful url timed_out = search (truth_rules, up) depth 8
  finish-Truthful url (cancelled x) = search (truth_rules, up) depth 8

  deploy-Truthful :
      (cluster_id : Uuid) → Ensures H (Truthful payload.job_id) (deploy s payload id cluster_id)
  unfolding deploy
  deploy-Truthful cluster_id = search (truth_rules, finish-Truthful, up) depth 20

module _ (s : Server) (task : Task) (payload : DeployModelPayload) where
  deploy_task_ends :
      Ensures
        (Reads (λ e. e.unmarshal_deploy task.payload) payload)
        (Truthful payload.job_id)
        (handle_deploy_model_task s task)
  unfolding handle_deploy_model_task
  deploy_task_ends =
      Ensures-check_known _ _ _ payload
        (λ e h w. ap (λ r. r.0) (parse_deploy_model_payload-ok task e w h.read_payload))
        (search (truth_rules, deploy-Truthful) depth 12)

  -- While the database is up and the task's context does not end, a deploy task whose payload is
  -- read ends with the job's rows `completed` if the handler returns nil and `failed` if it returns
  -- an error, each with a time of completion, whatever the tables were and whatever else fails.
  pub deploy_task-Truthful :
      (e : Env) (w : World)
      → IsUp e
      → e.unmarshal_deploy task.payload ≡ ok payload
      → Truthful payload.job_id
          (handle_deploy_model_task s task e w).0
          (handle_deploy_model_task s task e w).1.db
  deploy_task-Truthful e w up read =
      deploy_task_ends.at e (record { up = up; read_payload = read }) w
