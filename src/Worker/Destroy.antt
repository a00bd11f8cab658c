-- ===== src/Worker/Destroy.antt =====
-- handleDestroyClusterTask of internal/worker/server.go.
pub mod Keep
pub mod Truth
pub mod Outcome
pub mod Routing
use tark.Common.{String, List, Error, Result, ok, err, wrap, ◌==◌, if◌then◌else◌}
use tark.Models.{Uuid}
use tark.Models.ClusterStatus
use tark.Models.DeploymentStatus
use tark.Models.JobStatus
use tark.Queue.{Task, DestroyClusterPayload}
use tark.Queue.Tasks.{parse_destroy_cluster_payload}
use tark.Store.Methods.{
  update_cluster_status, update_cluster_details, update_deployments_status_by_cluster,
  update_job_status,
}
use tark.Worker.Shared.{fail_job, complete_job}
use tark.Worker.Provisioner.{destroy_cluster}
use tark.System.Env.{Env}
use tark.System.Act.{Act, ◌>>=◌, ◌>>◌, pure, asks, check}

-- `if clusterID != "" { if id, err := uuid.Parse(clusterID); err == nil { k id } }`, else `other`
unfoldable pub with_cluster_id : {A : Type 0} → String → (Uuid → Act A) → Act A → Act A
with_cluster_id text k other =
    if text == "" then other else check (asks (λ e. e.parse_uuid text)) (λ _. other) k

unfoldable pub set_status : String → String → Act (Unit {0})
unfolding with_cluster_id
set_status text status =
    with_cluster_id text (λ id. do update_cluster_status id status; pure tt) (pure tt)

-- The tables after a stack is gone.
unfoldable pub mark_destroyed : DestroyClusterPayload → Act (Result (Unit {0}))
unfolding with_cluster_id
mark_destroyed payload =
    with_cluster_id payload.cluster_id
      (λ id.
        check (update_cluster_details id ClusterStatus.destroyed List.[] "")
          (λ x. do fail_job payload.job_id x; pure (wrap "update destroyed status" x))
          λ _. do
            update_deployments_status_by_cluster id DeploymentStatus.orphaned
            complete_job payload.job_id
            pure (ok tt))
      do complete_job payload.job_id; pure (ok tt)

unfoldable pub destroy : DestroyClusterPayload → Act (Result (Unit {0}))
unfolding set_status mark_destroyed
destroy payload = do
  update_job_status payload.job_id JobStatus.running ""
  set_status payload.cluster_id ClusterStatus.destroying
  check (destroy_cluster payload.stack_name payload.infra_dir)
      (λ x. do
        set_status payload.cluster_id ClusterStatus.failed
        fail_job payload.job_id x
        pure (wrap "destroy cluster" x))
      λ _. mark_destroyed payload

unfoldable pub handle_destroy_cluster_task : Task → Act (Result (Unit {0}))
handle_destroy_cluster_task task =
    check (parse_destroy_cluster_payload task) (λ x. pure (wrap "parse destroy task" x))
      λ payload. destroy payload
