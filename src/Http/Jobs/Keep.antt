-- ===== src/Http/Jobs/Keep.antt =====
-- The job endpoints read the tables; a job record keeps them consistent.
use tark.Common.{String, Option, none, some}
use tark.Queue.{Payload}
use tark.Store.{Database}
use tark.Store.Consistency.{IsConsistent}
use tark.Store.Methods.Keep.{
  create_job-Keeps, get_job-Keeps, list_jobs-Keeps, get_deployment-Keeps, get_cluster-Keeps,
}
use tark.Worker.Shared.Keep.{Keeps-if}
use tark.Http.Jobs.{
  get_job_status, resource_of_deployment, resource_of_cluster, resource_of, get_status_by_job_id,
  list_all_jobs, create_job_record,
}
use tark.System.Keeps.{Keeps, keeps_rules}

module _ {P : Database → Type 0} where
  pub get_job_status-Keeps : (id : String) → Keeps P (get_job_status id)
  unfolding get_job_status
  get_job_status-Keeps id = search (keeps_rules, get_job-Keeps, Keeps-if)

  resource_of-Keeps : (d c : Option String) → Keeps P (resource_of d c)
  unfolding resource_of resource_of_deployment resource_of_cluster
  resource_of-Keeps (some d) c = search (keeps_rules, get_deployment-Keeps)
  resource_of-Keeps none (some c) = search (keeps_rules, get_cluster-Keeps)
  resource_of-Keeps none none = search keeps_rules

  pub get_status_by_job_id-Keeps : (id : String) → Keeps P (get_status_by_job_id id)
  unfolding get_status_by_job_id
  get_status_by_job_id-Keeps id =
      search (keeps_rules, get_job-Keeps, resource_of-Keeps, Keeps-if) depth 9

  pub list_all_jobs-Keeps : Keeps P list_all_jobs
  unfolding list_all_jobs
  list_all_jobs-Keeps = search (keeps_rules, list_jobs-Keeps)

pub create_job_record-Keeps :
    (job_id task_type : String) (payload : Payload) (cluster_id deployment_id : Option String)
    → Keeps IsConsistent (create_job_record job_id task_type payload cluster_id deployment_id)
unfolding create_job_record
create_job_record-Keeps job_id task_type payload cluster_id deployment_id =
    search (keeps_rules, create_job-Keeps)
