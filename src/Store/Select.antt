-- ===== src/Store/Select.antt =====
-- The SELECT statements of internal/store/postgres.go. `QueryRow` takes the first row; rows with
-- equal sort keys stay in the order of the table.
pub mod Targets
use tark.Common.{
  String, Option, none, some, Bool, true, not, ◌&&◌, List, map, ◌==◌, nat_eq, find_first,
  select_where, sort_desc, Result, ok, err,
}
use tark.Common.Results.{or_fail}
use tark.Models.{Uuid, Organization, Cluster, Deployment, Job}
use tark.Models.ClusterStatus
use tark.Models.DeploymentStatus
use tark.Store.{Database}

unfoldable pub select_organization : Uuid → Database → Result Organization
select_organization id db =
    or_fail (find_first (λ o. nat_eq o.id id) db.organizations) "organization not found"

unfoldable pub select_organization_by_name : String → Database → Result Organization
select_organization_by_name name db =
    or_fail (find_first (λ o. o.name == name) db.organizations) "organization not found"

unfoldable pub select_cluster : Uuid → Database → Result Cluster
select_cluster id db = or_fail (find_first (λ c. nat_eq c.id id) db.clusters) "cluster not found"

unfoldable pub select_cluster_by_name : String → Database → Result Cluster
select_cluster_by_name name db =
    or_fail (find_first (λ c. c.name == name) db.clusters) "cluster not found"

-- The list does not fetch the kubeconfig.
unfoldable pub select_clusters : Uuid → Database → List Cluster
select_clusters org_id db =
    map {A = Cluster} (λ c. record c { kubeconfig = List.[] })
      (sort_desc (λ c. c.created_at) (select_where (λ c. nat_eq c.org_id org_id) db.clusters))

unfoldable pub select_deployment : Uuid → Database → Result Deployment
select_deployment id db =
    or_fail (find_first (λ d. nat_eq d.id id) db.deployments) "deployment not found"

unfoldable pub select_deployments : Database → List Deployment
select_deployments db = sort_desc (λ d. d.created_at) db.deployments

-- JOIN clusters c ON d.cluster_id = c.id, with the test on c.status
cluster_is_active : Uuid → Database → Bool
cluster_is_active id db = elim (find_first (λ (c : Cluster). nat_eq c.id id) db.clusters) [
  | none ↦ Bool.false
  | some c ↦ c.status == ClusterStatus.active
]

is_target : String → Database → Deployment → Bool
is_target model db d =
    d.model_name == model
    && d.status == DeploymentStatus.active
    && cluster_is_active d.cluster_id db
    && not (d.service_url == "")

unfoldable pub select_active_targets : String → Database → List String
unfolding is_target cluster_is_active
select_active_targets model db =
    map (λ d. d.service_url)
      (sort_desc (λ d. d.updated_at) (select_where (is_target model db) db.deployments))

unfoldable pub select_job : String → Database → Result Job
select_job job_id db = or_fail (find_first (λ j. j.job_id == job_id) db.jobs) "job not found"

unfoldable pub select_jobs : Database → List Job
select_jobs db = sort_desc (λ j. j.created_at) db.jobs
