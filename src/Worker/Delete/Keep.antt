-- ===== src/Worker/Delete/Keep.antt =====
-- Deleting keeps the tables consistent, whatever fails on the way.
use tark.Models.{Uuid}
use tark.Queue.{Task, DeleteModelPayload}
use tark.Queue.Tasks.Keep.{task_rules}
use tark.Kube.Client.Keep.{new_from_kubeconfig-Keeps, delete_model-Keeps}
use tark.Store.Consistency.{IsConsistent}
use tark.Store.Methods.Keep.{
  get_cluster-Keeps, update_deployment_status-Keeps, update_job_status-Keeps,
}
use tark.Worker.Shared.{Server}
use tark.Worker.Shared.Keep.{
  fail_job-Keeps, complete_job-Keeps, invalidate_model_cache-Keeps, decrypt_kubeconfig-Keeps,
}
use tark.Worker.Delete.{delete, handle_delete_model_task}
use tark.System.Keeps.{Keeps, keeps_rules}

ruleset delete_rules = (
  keeps_rules, get_cluster-Keeps, update_deployment_status-Keeps, update_job_status-Keeps,
  fail_job-Keeps, complete_job-Keeps, invalidate_model_cache-Keeps, decrypt_kubeconfig-Keeps,
  new_from_kubeconfig-Keeps, delete_model-Keeps,
)

delete-Keeps :
    (s : Server) (payload : DeleteModelPayload) (id cluster_id : Uuid)
    → Keeps IsConsistent (delete s payload id cluster_id)
unfolding delete
delete-Keeps s payload id cluster_id = search delete_rules depth 20

pub handle_delete_model_task-Keeps :
    (s : Server) (task : Task) → Keeps IsConsistent (handle_delete_model_task s task)
unfolding handle_delete_model_task
handle_delete_model_task-Keeps s task = search (delete_rules, task_rules, delete-Keeps) depth 12
