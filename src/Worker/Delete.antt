-- ===== src/Worker/Delete.antt =====
-- handleDeleteModelTask of internal/worker/server.go.
pub mod Keep
pub mod Outcome
use tark.Common.{String, Error, Result, ok, err, wrap}
use tark.Models.{Uuid, Cluster}
use tark.Models.DeploymentStatus
use tark.Models.JobStatus
use tark.Queue.{Task, DeleteModelPayload}
use tark.Queue.Tasks.{parse_delete_model_payload}
use tark.Kube.Client.{new_from_kubeconfig, delete_model}
use tark.Store.Methods.{get_cluster, update_deployment_status, update_job_status}
use tark.Worker.Shared.{Server, fail_job, complete_job, invalidate_model_cache, decrypt_kubeconfig}
use tark.System.Env.{Env}
use tark.System.Act.{Act, ◌>>=◌, ◌>>◌, pure, asks, check}

-- From the parsed ids on. The branches differ in what they undo, as in the source.
pub delete : Server → DeleteModelPayload → Uuid → Uuid → Act (Result (Unit {0}))
delete s payload deployment_id cluster_id = do
  update_deployment_status deployment_id DeploymentStatus.deleting
  invalidate_model_cache s payload.name
  update_job_status payload.job_id JobStatus.running ""
  check (get_cluster cluster_id) (λ x. do fail_job payload.job_id x; pure (wrap "get cluster" x))
      λ cluster.
        check (decrypt_kubeconfig s cluster.kubeconfig)
          (λ x. do
            update_deployment_status deployment_id DeploymentStatus.failed
            invalidate_model_cache s payload.name
            fail_job payload.job_id x
            pure (wrap "decrypt kubeconfig" x))
          λ kubeconfig.
            check (new_from_kubeconfig kubeconfig)
              (λ x. do
                update_deployment_status deployment_id DeploymentStatus.failed
                fail_job payload.job_id x
                pure (wrap "kube client error" x))
              λ _.
                check (delete_model payload.namespace payload.name)
                  (λ x. do
                    update_deployment_status deployment_id DeploymentStatus.failed
                    fail_job payload.job_id x
                    pure (wrap "delete model" x))
                  λ _.
                    check (update_deployment_status deployment_id DeploymentStatus.deleted)
                      (λ x. pure (wrap "mark deployment deleted" x))
                      λ _. do complete_job payload.job_id; pure (ok tt)

pub handle_delete_model_task : Server → Task → Act (Result (Unit {0}))
handle_delete_model_task s task =
    check (parse_delete_model_payload task) (λ x. pure (wrap "parse delete task" x))
      λ payload.
        check (asks (λ e. e.parse_uuid payload.deployment_id))
          (λ x. do fail_job payload.job_id x; pure (wrap "invalid deployment id" x))
          λ deployment_id.
            check (asks (λ e. e.parse_uuid payload.cluster_id))
              (λ x. do
                update_deployment_status deployment_id DeploymentStatus.failed
                fail_job payload.job_id x
                pure (wrap "invalid cluster id" x))
              λ cluster_id. delete s payload deployment_id cluster_id
