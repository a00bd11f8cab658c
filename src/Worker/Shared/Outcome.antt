-- ===== src/Worker/Shared/Outcome.antt =====
-- The end of a job leaves the tables of clusters and deployments alone.
use tark.Common.{String, List, ◌≡◌, Error, Result, ok}
use tark.Models.{Uuid, Cluster, Deployment}
use tark.Store.Methods.Effect.{update_job_status-deployments, update_job_status-clusters}
use tark.Worker.Shared.{fail_job, complete_job}
use tark.System.Env.{Env}
use tark.System.Ensures.{IsUp}
use tark.System.Keeps.{Keeps, Keeps-then, Keeps-pure}

-- The database is up, json.Unmarshal gives the payload, and uuid.Parse reads the id in it.
pub record ReadsId {P : Type 0} (read : Env → Result P) (payload : P) (text : String) (id : Uuid)
    (e : Env) : Type 0 where
  pub up : IsUp e
  pub read_payload : read e ≡ ok payload
  pub read_id : e.parse_uuid text ≡ ok id

pub ReadsId-IsUp :
    {P : Type 0} {read : Env → Result P} {payload : P} {text : String} {id : Uuid} (e : Env)
    → ReadsId read payload text id e
    → IsUp e
ReadsId-IsUp e h = h.up

pub fail_job-deployments :
    (P : List Deployment → Type 0) (job_id : String) (x : Error)
    → Keeps (λ db. P db.deployments) (fail_job job_id x)
unfolding fail_job
fail_job-deployments P job_id x =
    Keeps-then _ _ (update_job_status-deployments P job_id _ _) (Keeps-pure tt)

pub complete_job-deployments :
    (P : List Deployment → Type 0) (job_id : String)
    → Keeps (λ db. P db.deployments) (complete_job job_id)
unfolding complete_job
complete_job-deployments P job_id =
    Keeps-then _ _ (update_job_status-deployments P job_id _ _) (Keeps-pure tt)

pub fail_job-clusters :
    (P : List Cluster → Type 0) (job_id : String) (x : Error)
    → Keeps (λ db. P db.clusters) (fail_job job_id x)
unfolding fail_job
fail_job-clusters P job_id x =
    Keeps-then _ _ (update_job_status-clusters P job_id _ _) (Keeps-pure tt)

pub complete_job-clusters :
    (P : List Cluster → Type 0) (job_id : String)
    → Keeps (λ db. P db.clusters) (complete_job job_id)
unfolding complete_job
complete_job-clusters P job_id =
    Keeps-then _ _ (update_job_status-clusters P job_id _ _) (Keeps-pure tt)
