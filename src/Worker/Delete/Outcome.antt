-- ===== src/Worker/Delete/Outcome.antt =====
-- What a delete task leaves in the deployment's row.
use tark.Common.{String, ◌≡◌, ap, Error, Result, ok, err}
use tark.Models.{Uuid}
use tark.Models.DeploymentStatus
use tark.Queue.{Task, DeleteModelPayload}
use tark.Queue.Tasks.Parse.{parse_delete_model_payload-ok}
use tark.Store.{Database}
use tark.Store.Methods.{update_deployment_status}
use tark.Store.Methods.Effect.{
  DeploymentRows, DeploymentIs, update_deployment_status-Is, update_deployment_status-nil,
}
use tark.Worker.Shared.{Server, complete_job}
use tark.Worker.Shared.Outcome.{ReadsId, ReadsId-IsUp, complete_job-deployments}
use tark.Worker.Delete.{delete, handle_delete_model_task}
use tark.System.Env.{Env}
use tark.System.Act.{Act, World, ◌>>◌, pure, asks, check}
use tark.System.Ensures.{
  IsUp, Ensures, Ensures-check, Ensures-check_known, Ensures-check_after, Ensures-then,
  ensures_rules,
}

-- Every row of the deployment is deleted, where the handler returns nil.
abbrev pub Deleted : Uuid → Result (Unit {0}) → Database → Type 0
Deleted id (ok done) db = DeploymentIs id DeploymentStatus.deleted db
Deleted id (err x) db = Unit

module _ {H : Env → Type 0} (up : (e : Env) → H e → IsUp e) (id : Uuid) where
  failing : (x : Error) → Ensures H (Deleted id) (pure (err x))
  unfolding pure
  failing x = record { at = λ e he w. tt }

  marking :
      (job_id : String) (fail : Error → Act (Result (Unit {0})))
      → Ensures H (Deleted id) (
          check
            (update_deployment_status id DeploymentStatus.deleted)
            fail
            λ done. complete_job job_id >> pure (ok tt))
  unfolding ◌>>◌ pure
  marking job_id fail =
      Ensures-check_after _ _ _ tt (update_deployment_status-nil up id DeploymentStatus.deleted)
        (update_deployment_status-Is up id DeploymentStatus.deleted)
        λ e he w h.
          (complete_job-deployments (DeploymentRows id DeploymentStatus.deleted) job_id).at e w h

  delete-Deleted :
      (s : Server) (payload : DeleteModelPayload) (cluster_id : Uuid)
      → Ensures H (Deleted id) (delete s payload id cluster_id)
  unfolding delete
  delete-Deleted s payload cluster_id = search (marking, ensures_rules, failing) depth 20

module _ (s : Server) (task : Task) (payload : DeleteModelPayload) (id : Uuid) where
  delete_task_leaves :
      Ensures
        (ReadsId (λ e. e.unmarshal_delete task.payload) payload payload.deployment_id id)
        (Deleted id)
        (handle_delete_model_task s task)
  unfolding handle_delete_model_task asks
  delete_task_leaves =
      Ensures-check_known _ _ _ payload
        (λ e h w. ap (λ r. r.0) (parse_delete_model_payload-ok task e w h.read_payload))
        (Ensures-check_known _ _ _ id (λ e h w. h.read_id)
          (Ensures-check _ _ _
            (λ x. Ensures-then _ _ (Ensures-then _ _ (failing ReadsId-IsUp id _)))
            (delete-Deleted ReadsId-IsUp id s payload)))

  -- While the database is up and the task's context does not end, a delete task whose payload and
  -- deployment id are read leaves every row of the deployment deleted if the handler returns nil.
  pub delete_task_outcome :
      (e : Env) (w : World)
      → IsUp e
      → e.unmarshal_delete task.payload ≡ ok payload
      → e.parse_uuid payload.deployment_id ≡ ok id
      → Deleted id
          (handle_delete_model_task s task e w).0
          (handle_delete_model_task s task e w).1.db
  delete_task_outcome e w up read read_id =
      delete_task_leaves.at e (record { up = up; read_payload = read; read_id = read_id }) w
