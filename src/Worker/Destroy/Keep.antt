-- ===== src/Worker/Destroy/Keep.antt =====
-- Destroying keeps the tables consistent, whatever fails on the way.
use tark.Common.{String}
use tark.Models.{Uuid}
use tark.Queue.{Task, DestroyClusterPayload}
use tark.Queue.Tasks.Keep.{task_rules}
use tark.Store.{Database}
use tark.Store.Consistency.{IsConsistent}
use tark.Store.Methods.Keep.{
  update_cluster_status-Keeps, update_cluster_details-Keeps,
  update_deployments_status_by_cluster-Keeps, update_job_status-Keeps,
}
use tark.Worker.Shared.Keep.{fail_job-Keeps, complete_job-Keeps, Keeps-if}
use tark.Worker.Provisioner.Keep.{destroy_cluster-Keeps}
use tark.Worker.Destroy.{with_cluster_id, destroy, handle_destroy_cluster_task}
use tark.System.Act.{Act}
use tark.System.Keeps.{Keeps, keeps_rules}

with_cluster_id-Keeps :
    {A : Type 0} {P : Database → Type 0} (text : String) (k : Uuid → Act A) (other : Act A)
    → ((id : Uuid) → Keeps P (k id))
    → Keeps P other
    → Keeps P (with_cluster_id text k other)
unfolding with_cluster_id
with_cluster_id-Keeps text k other kk ko = search (keeps_rules, Keeps-if)

ruleset destroy_rules = (
  keeps_rules, with_cluster_id-Keeps, update_cluster_status-Keeps, update_cluster_details-Keeps,
  update_deployments_status_by_cluster-Keeps, update_job_status-Keeps, fail_job-Keeps,
  complete_job-Keeps, destroy_cluster-Keeps,
)

destroy-Keeps : (payload : DestroyClusterPayload) → Keeps IsConsistent (destroy payload)
unfolding destroy
destroy-Keeps payload = search destroy_rules depth 14

pub handle_destroy_cluster_task-Keeps :
    (task : Task) → Keeps IsConsistent (handle_destroy_cluster_task task)
unfolding handle_destroy_cluster_task
handle_destroy_cluster_task-Keeps task = search (keeps_rules, task_rules, destroy-Keeps)
