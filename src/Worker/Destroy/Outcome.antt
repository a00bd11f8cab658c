-- ===== src/Worker/Destroy/Outcome.antt =====
-- What a destroy task leaves in the rows of the cluster and of its deployments.
use tark.Common.{String, [], ◌≡◌, ap, false, Error, Result, ok, err, ◌==◌}
use tark.Models.{Uuid}
use tark.Models.ClusterStatus
use tark.Models.DeploymentStatus
use tark.Queue.{Task, DestroyClusterPayload}
use tark.Queue.Tasks.Parse.{parse_destroy_cluster_payload-ok}
use tark.Store.{Database}
use tark.Store.Methods.Effect.{
  ClusterRows, ClusterIs, StatusRows, ClusterHas, AbandonedRows, ClusterAbandoned,
  update_cluster_details-Is, update_cluster_details-nil, update_cluster_status-Has,
  update_deployments_status_by_cluster-Abandoned, update_deployments_status_by_cluster-clusters,
}
use tark.Worker.Shared.{fail_job}
use tark.Worker.Shared.Outcome.{
  ReadsId, ReadsId-IsUp, fail_job-clusters, complete_job-clusters, complete_job-deployments,
}
use tark.Worker.Destroy.{
  with_cluster_id, set_status, mark_destroyed, destroy, handle_destroy_cluster_task,
}
use tark.System.Env.{Env}
use tark.System.Act.{Act, World, ◌>>◌, pure, asks}
use tark.System.Ensures.{
  IsUp, Establishes, Establishes-then_kept, Ensures, Ensures-check_known, Ensures-check_after,
  Ensures-return, ensures_rules,
}

-- The cluster is destroyed, without a kubeconfig or an address, and its deployments are over, where the
-- handler returns nil; it is failed where the handler returns an error.
abbrev pub Destroyed : Uuid → Result (Unit {0}) → Database → Type 0
Destroyed id (ok done) db = ClusterIs id ClusterStatus.destroyed [] "" db × ClusterAbandoned id db
Destroyed id (err x) db = ClusterHas id ClusterStatus.failed db

module _ {H : Env → Type 0} (up : (e : Env) → H e → IsUp e) (payload : DestroyClusterPayload)
    (id : Uuid) (given : (payload.cluster_id == "") ≡ false)
    (known : (e : Env) → H e → e.parse_uuid payload.cluster_id ≡ ok id) where
  with_cluster_id-known :
      {A : Type 0} {Q : A → Database → Type 0} (k : Uuid → Act A) (other : Act A)
      → Ensures H Q (k id)
      → Ensures H Q (with_cluster_id payload.cluster_id k other)
  unfolding with_cluster_id asks
  with_cluster_id-known k other h = rw given (Ensures-check_known _ _ k id (λ e he w. known e he) h)

  set_status-Has :
      (status : String)
      → Establishes H (ClusterHas id status) (set_status payload.cluster_id status)
  unfolding set_status
  set_status-Has status = record {
    at = λ e he w.
        (with_cluster_id-known {Q = λ done. ClusterHas id status} _ _
            (Ensures-return _ tt (update_cluster_status-Has up id status))).at
          e he w;
  }

  failing :
      (x y : Error)
      → Ensures H (Destroyed id) (
          set_status payload.cluster_id ClusterStatus.failed
          >> (fail_job payload.job_id x >> pure (err y)))
  unfolding ◌>>◌ pure
  failing x y = record {
    at = λ e he w.
        (Ensures-return {Q = Destroyed id} _ (err y) (
            Establishes-then_kept _ _ (set_status-Has ClusterStatus.failed)
              (fail_job-clusters (StatusRows id ClusterStatus.failed) payload.job_id x))).at
          e he w;
  }

  mark_destroyed-Destroyed : Ensures H (Destroyed id) (mark_destroyed payload)
  unfolding mark_destroyed ◌>>◌ pure
  mark_destroyed-Destroyed = with_cluster_id-known _ _ (
      Ensures-check_after _ _ _ tt (update_cluster_details-nil up id _ _ _)
        (update_cluster_details-Is up id _ _ _)
        λ e he w h. (
          (complete_job-clusters (ClusterRows id ClusterStatus.destroyed [] "") payload.job_id).at e
              _
              ((update_deployments_status_by_cluster-clusters
                  (ClusterRows id ClusterStatus.destroyed [] "") id DeploymentStatus.orphaned).at
                e w h),
          (complete_job-deployments (AbandonedRows id) payload.job_id).at e _
              ((update_deployments_status_by_cluster-Abandoned up id).at e he w),
        ))

  destroy-Destroyed : Ensures H (Destroyed id) (destroy payload)
  unfolding destroy
  destroy-Destroyed = search (ensures_rules, failing, mark_destroyed-Destroyed)

module _ (task : Task) (payload : DestroyClusterPayload) (id : Uuid) where
  destroy_task_leaves :
      (payload.cluster_id == "") ≡ false
      → Ensures
          (ReadsId (λ e. e.unmarshal_destroy task.payload) payload payload.cluster_id id)
          (Destroyed id)
          (handle_destroy_cluster_task task)
  unfolding handle_destroy_cluster_task
  destroy_task_leaves given =
      Ensures-check_known _ _ _ payload
        (λ e h w. ap (λ r. r.0) (parse_destroy_cluster_payload-ok task e w h.read_payload))
        (destroy-Destroyed ReadsId-IsUp payload id given (λ e h. h.read_id))

  -- While the database is up and the task's context does not end, a destroy task whose payload and
  -- cluster id are read leaves every row of the cluster destroyed, with no kubeconfig and no
  -- address, and each deployment of the cluster orphaned, deleted or failed, if the handler returns
  -- nil; if it returns an error, it leaves every row of the cluster failed.
  pub destroy_task_outcome :
      (e : Env) (w : World)
      → IsUp e
      → e.unmarshal_destroy task.payload ≡ ok payload
      → (payload.cluster_id == "") ≡ false
      → e.parse_uuid payload.cluster_id ≡ ok id
      → Destroyed id
          (handle_destroy_cluster_task task e w).0
          (handle_destroy_cluster_task task e w).1.db
  destroy_task_outcome e w up read given read_id =
      (destroy_task_leaves given).at e (record { up = up; read_payload = read; read_id = read_id })
        w
