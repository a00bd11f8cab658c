-- ===== src/Store/Methods.antt =====
-- The methods of PostgresStore (internal/store/postgres.go): one statement each, over the connection.
pub mod Keep
pub mod Effect
use tark.Common.{String, Option, some, List, Error, Result, ok, err, nat_eq, if◌then◌else◌}
use tark.Models.{Uuid, nil_uuid, Bytes, Organization, Cluster, Deployment, Job}
use tark.Store.{Database}
use tark.Store.Insert.{insert_organization, insert_cluster, insert_deployment, insert_job}
use tark.Store.Select.{
  select_organization, select_organization_by_name, select_cluster, select_cluster_by_name,
  select_clusters, select_deployment, select_deployments, select_active_targets, select_job,
  select_jobs,
}
use tark.Store.Update.{
  set_cluster_status, set_cluster_details, reset_cluster as reset_cluster_row,
  set_deployment_status, set_deployment_url, set_deployments_status_by_cluster, set_job_status,
}
use tark.System.Act.{Act, ◌>>=◌, pure, call, exec, query, query_rows}

pub create_organization : Organization → Act (Result (Unit {0}))
create_organization org = exec (λ e now db. insert_organization e.postgres org db)

pub get_organization : Uuid → Act (Result Organization)
get_organization id = query (select_organization id)

unfoldable pub get_organization_by_name : String → Act (Result Organization)
get_organization_by_name name = query (select_organization_by_name name)

pub create_cluster : Cluster → Act (Result (Unit {0}))
create_cluster c = exec (λ e now db. insert_cluster e.postgres c db)

unfoldable pub get_cluster : Uuid → Act (Result Cluster)
get_cluster id = query (select_cluster id)

pub get_cluster_by_name : String → Act (Result Cluster)
get_cluster_by_name name = query (select_cluster_by_name name)

unfoldable pub list_clusters : Uuid → Act (Result (List Cluster))
list_clusters org_id = query_rows (select_clusters org_id)

unfoldable pub update_cluster_status : Uuid → String → Act (Result (Unit {0}))
update_cluster_status id status = exec (λ e now db. ok (set_cluster_status id status now db))

unfoldable pub update_cluster_details : Uuid → String → Bytes → String → Act (Result (Unit {0}))
update_cluster_details id status kubeconfig ip =
    exec (λ e now db. ok (set_cluster_details id status kubeconfig ip now db))

pub reset_cluster : Uuid → String → String → Act (Result (Unit {0}))
reset_cluster id region status = exec (λ e now db. ok (reset_cluster_row id region status now db))

pub create_deployment : Deployment → Act (Result (Unit {0}))
create_deployment d = exec (λ e now db. insert_deployment e.postgres d db)

unfoldable pub get_deployment : Uuid → Act (Result Deployment)
get_deployment id = query (select_deployment id)

pub list_deployments : Act (Result (List Deployment))
list_deployments = query_rows select_deployments

unfoldable pub update_deployment_status : Uuid → String → Act (Result (Unit {0}))
update_deployment_status id status = exec (λ e now db. ok (set_deployment_status id status now db))

pub update_deployment_service_url : Uuid → String → String → Act (Result (Unit {0}))
update_deployment_service_url id status url =
    exec (λ e now db. ok (set_deployment_url id status url now db))

unfoldable pub update_deployments_status_by_cluster : Uuid → String → Act (Result (Unit {0}))
update_deployments_status_by_cluster id status =
    exec (λ e now db. ok (set_deployments_status_by_cluster id status now db))

unfoldable pub list_active_deployment_targets : String → Act (Result (List String))
list_active_deployment_targets model = query (λ db. ok (select_active_targets model db))

-- A job with no id gets a new one.
pub create_job : Job → Act (Result (Unit {0}))
create_job job = do
  id ← call (λ e n. e.new_uuid n)
  exec (λ e now db.
      insert_job e.postgres (record job { id = if nat_eq job.id nil_uuid then id else job.id }) db)

pub get_job : String → Act (Result Job)
get_job job_id = query (select_job job_id)

pub list_jobs : Act (Result (List Job))
list_jobs = query_rows select_jobs

unfoldable pub update_job_status : String → String → String → Act (Result (Unit {0}))
update_job_status job_id status message =
    exec (λ e now db. ok (set_job_status job_id status message now db))
