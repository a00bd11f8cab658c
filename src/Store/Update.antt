-- ===== src/Store/Update.antt =====
-- The UPDATE statements of internal/store/postgres.go, at the server's time NOW().
use tark.Common.{
  String, Option, none, some, Bool, not, ◌&&◌, ◌||◌, List, ◌==◌, nat_eq, update_where,
  if◌then◌else◌,
}
use tark.Models.{Uuid, Time, Bytes, Cluster, Deployment}
use tark.Models.DeploymentStatus
use tark.Models.JobStatus
use tark.Store.{Database}

abbrev update_clusters : Uuid → (Cluster → Cluster) → Database → Database
update_clusters id set db = record db {
  clusters = update_where (λ c. nat_eq c.id id) set db.clusters;
}

abbrev update_deployments : (Deployment → Bool) → (Deployment → Deployment) → Database → Database
update_deployments where_ set db = record db {
  deployments = update_where where_ set db.deployments;
}

unfoldable pub set_cluster_status : Uuid → String → Time → Database → Database
set_cluster_status id status now =
    update_clusters id (λ c. record c { status = status; updated_at = now })

unfoldable pub set_cluster_details : Uuid → String → Bytes → String → Time → Database → Database
set_cluster_details id status kubeconfig public_ip now = update_clusters id (λ c. record c {
  status = status;
  kubeconfig = kubeconfig;
  public_ip = public_ip;
  updated_at = now;
})

unfoldable pub reset_cluster : Uuid → String → String → Time → Database → Database
reset_cluster id region status now = update_clusters id (λ c. record c {
  status = status;
  region = region;
  kubeconfig = List.[];
  public_ip = "";
  updated_at = now;
})

unfoldable pub set_deployment_status : Uuid → String → Time → Database → Database
set_deployment_status id status now =
    update_deployments (λ d. nat_eq d.id id) (λ d. record d { status = status; updated_at = now })

unfoldable pub set_deployment_url : Uuid → String → String → Time → Database → Database
set_deployment_url id status url now =
    update_deployments (λ d. nat_eq d.id id)
      (λ d. record d { status = status; service_url = url; updated_at = now })

-- WHERE cluster_id = $2 AND status != 'deleted' AND status != 'failed'
unfoldable pub set_deployments_status_by_cluster : Uuid → String → Time → Database → Database
set_deployments_status_by_cluster cluster_id status now =
    update_deployments
      (λ d.
        nat_eq d.cluster_id cluster_id
        && not (d.status == DeploymentStatus.deleted)
        && not (d.status == DeploymentStatus.failed))
      (λ d. record d { status = status; updated_at = now })

-- NULLIF($2, '')
abbrev null_if_empty : String → Option String
null_if_empty s = if s == "" then none else some s

-- CASE WHEN $1 = 'running' AND started_at IS NULL THEN NOW() ELSE started_at END
abbrev start_time : String → Time → Option Time → Option Time
start_time status now (some t) = some t
start_time status now none = if status == JobStatus.running then some now else none

-- CASE WHEN $1 IN ('completed', 'failed') THEN NOW() ELSE completed_at END
abbrev completion_time : String → Time → Option Time → Option Time
completion_time status now old =
    if status == JobStatus.completed || status == JobStatus.failed then some now else old

unfoldable pub set_job_status : String → String → String → Time → Database → Database
set_job_status job_id status message now db = record db {
  jobs =
      update_where (λ j. j.job_id == job_id)
        (λ j. record j {
          status = status;
          error = null_if_empty message;
          updated_at = now;
          started_at = start_time status now j.started_at;
          completed_at = completion_time status now j.completed_at;
        })
        db.jobs;
}
