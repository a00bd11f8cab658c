-- ===== src/Store/Methods/Keep.antt =====
-- Every method of PostgresStore keeps the tables consistent.
use tark.Common.{String}
use mathlib.Core.Path.{subst}
use tark.Common.Results.{ok-injective}
use tark.Models.{Uuid, Bytes, Organization, Cluster, Deployment, Job}
use tark.Models.ClusterStatus
use tark.Models.DeploymentStatus
use tark.Models.JobStatus
use tark.Store.{Database}
use tark.Store.Consistency
use tark.Store.Consistency.Inserts
use tark.Store.Consistency.{IsConsistent}
use tark.Store.Methods.{
  create_organization, get_organization, get_organization_by_name, create_cluster, get_cluster,
  get_cluster_by_name, list_clusters, update_cluster_status, update_cluster_details, reset_cluster,
  create_deployment, get_deployment, list_deployments, update_deployment_status,
  update_deployment_service_url, update_deployments_status_by_cluster,
  list_active_deployment_targets, create_job, get_job, list_jobs, update_job_status,
}
use tark.System.Keeps.{Keeps, Keeps-exec, Keeps-query, Keeps-query_rows, Keeps-bind, Keeps-call}

module _ (id : Uuid) (status : String) where
  pub update_cluster_status-Keeps :
      ClusterStatus.IsKnown status → Keeps IsConsistent (update_cluster_status id status)
  unfolding update_cluster_status
  update_cluster_status-Keeps k = Keeps-exec _ λ e now db db' h done.
      subst IsConsistent (ok-injective done)
        (Consistency.set_cluster_status-IsConsistent now db h id status k)

  pub update_cluster_details-Keeps :
      (kubeconfig : Bytes) (ip : String)
      → ClusterStatus.IsKnown status
      → Keeps IsConsistent (update_cluster_details id status kubeconfig ip)
  unfolding update_cluster_details
  update_cluster_details-Keeps kubeconfig ip k = Keeps-exec _ λ e now db db' h done.
      subst IsConsistent (ok-injective done)
        (Consistency.set_cluster_details-IsConsistent now db h id status kubeconfig ip k)

  pub reset_cluster-Keeps :
      (region : String)
      → ClusterStatus.IsKnown status
      → Keeps IsConsistent (reset_cluster id region status)
  unfolding reset_cluster
  reset_cluster-Keeps region k = Keeps-exec _ λ e now db db' h done.
      subst IsConsistent (ok-injective done)
        (Consistency.reset_cluster-IsConsistent now db h id region status k)

  pub update_deployment_status-Keeps :
      DeploymentStatus.IsKnown status → Keeps IsConsistent (update_deployment_status id status)
  unfolding update_deployment_status
  update_deployment_status-Keeps k = Keeps-exec _ λ e now db db' h done.
      subst IsConsistent (ok-injective done)
        (Consistency.set_deployment_status-IsConsistent now db h id status k)

  pub update_deployment_service_url-Keeps :
      (url : String)
      → DeploymentStatus.IsKnown status
      → Keeps IsConsistent (update_deployment_service_url id status url)
  unfolding update_deployment_service_url
  update_deployment_service_url-Keeps url k = Keeps-exec _ λ e now db db' h done.
      subst IsConsistent (ok-injective done)
        (Consistency.set_deployment_url-IsConsistent now db h id status url k)

  pub update_deployments_status_by_cluster-Keeps :
      DeploymentStatus.IsKnown status
      → Keeps IsConsistent (update_deployments_status_by_cluster id status)
  unfolding update_deployments_status_by_cluster
  update_deployments_status_by_cluster-Keeps k = Keeps-exec _ λ e now db db' h done.
      subst IsConsistent (ok-injective done)
        (Consistency.set_deployments_status_by_cluster-IsConsistent now db h id status k)

pub update_job_status-Keeps :
    (job_id status message : String)
    → JobStatus.IsKnown status
    → Keeps IsConsistent (update_job_status job_id status message)
unfolding update_job_status
update_job_status-Keeps job_id status message k = Keeps-exec _ λ e now db db' h done.
    subst IsConsistent (ok-injective done)
      (Consistency.set_job_status-IsConsistent now db h job_id status message k)

pub create_organization-Keeps : (org : Organization) → Keeps IsConsistent (create_organization org)
unfolding create_organization
create_organization-Keeps org =
    Keeps-exec _
      λ e now db db' h done. Inserts.insert_organization-IsConsistent e.postgres db h org done

pub create_cluster-Keeps :
    (c : Cluster) → ClusterStatus.IsKnown c.status → Keeps IsConsistent (create_cluster c)
unfolding create_cluster
create_cluster-Keeps c k =
    Keeps-exec _ λ e now db db' h done. Inserts.insert_cluster-IsConsistent e.postgres db h c k done

pub create_deployment-Keeps :
    (d : Deployment) → DeploymentStatus.IsKnown d.status → Keeps IsConsistent (create_deployment d)
unfolding create_deployment
create_deployment-Keeps d k =
    Keeps-exec _
      λ e now db db' h done. Inserts.insert_deployment-IsConsistent e.postgres db h d k done

pub create_job-Keeps : (j : Job) → JobStatus.IsKnown j.status → Keeps IsConsistent (create_job j)
unfolding create_job
create_job-Keeps j k = Keeps-bind _ _ (Keeps-call _) λ id.
    Keeps-exec _ λ e now db db' h done. Inserts.insert_job-IsConsistent e.postgres db h _ k done

module _ {P : Database → Type 0} where
  pub get_organization-Keeps : (id : Uuid) → Keeps P (get_organization id)
  unfolding get_organization
  get_organization-Keeps id = Keeps-query _

  pub get_organization_by_name-Keeps : (name : String) → Keeps P (get_organization_by_name name)
  unfolding get_organization_by_name
  get_organization_by_name-Keeps name = Keeps-query _

  pub get_cluster-Keeps : (id : Uuid) → Keeps P (get_cluster id)
  unfolding get_cluster
  get_cluster-Keeps id = Keeps-query _

  pub get_cluster_by_name-Keeps : (name : String) → Keeps P (get_cluster_by_name name)
  unfolding get_cluster_by_name
  get_cluster_by_name-Keeps name = Keeps-query _

  pub list_clusters-Keeps : (id : Uuid) → Keeps P (list_clusters id)
  unfolding list_clusters
  list_clusters-Keeps id = Keeps-query_rows _

  pub get_deployment-Keeps : (id : Uuid) → Keeps P (get_deployment id)
  unfolding get_deployment
  get_deployment-Keeps id = Keeps-query _

  pub list_deployments-Keeps : Keeps P list_deployments
  unfolding list_deployments
  list_deployments-Keeps = Keeps-query_rows _

  pub list_active_deployment_targets-Keeps :
      (model : String) → Keeps P (list_active_deployment_targets model)
  unfolding list_active_deployment_targets
  list_active_deployment_targets-Keeps model = Keeps-query _

  pub get_job-Keeps : (job_id : String) → Keeps P (get_job job_id)
  unfolding get_job
  get_job-Keeps job_id = Keeps-query _

  pub list_jobs-Keeps : Keeps P list_jobs
  unfolding list_jobs
  list_jobs-Keeps = Keeps-query_rows _
