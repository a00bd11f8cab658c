-- ===== src/Store/Methods/Effect.antt =====
-- What the updates of postgres.go write, whatever the rows were before, while the database is up.
use tark.Common.{
  ◌⊎◌, inl, inr, not, ◌&&◌, String, some, Bool, true, false, List, ◌≡◌, refl, ap, ◌==◌, nat_eq, All,
  All-update_where_new, ok,
}
use tark.Common.Results.{ok-injective}
use tark.Models.{Uuid, Time, Bytes, Cluster, Deployment}
use mathlib.Core.Path.{subst}
use tark.Models.DeploymentStatus
use tark.Models.JobStatus
use tark.Store.{Database}
use tark.Store.Update.{
  set_job_status, set_deployment_status, set_deployment_url, set_cluster_details,
  set_cluster_status, set_deployments_status_by_cluster,
}
use tark.Store.Methods.{
  update_job_status, update_deployment_status, update_deployment_service_url,
  update_cluster_details, update_cluster_status, update_deployments_status_by_cluster,
}
use tark.System.Env.{Env}
use tark.System.Ensures.{IsUp, Establishes, Establishes-exec, exec-ok}
use tark.System.Act.{World}
use tark.System.Keeps.{Keeps, Keeps-exec}

-- Every row of the job has the status, and the time at which it ended.
abbrev pub JobEnded : String → String → Database → Type 0
JobEnded job_id status db =
    All
      (λ j.
        (j.job_id == job_id) ≡ true → (j.status ≡ status) × (t : Time) × (j.completed_at ≡ some t))
      db.jobs

set_job_status-JobEnded :
    (job_id message : String) (now : Time) (db : Database)
    → JobEnded job_id JobStatus.failed (set_job_status job_id JobStatus.failed message now db)
      × JobEnded job_id JobStatus.completed
          (set_job_status job_id JobStatus.completed message now db)
unfolding set_job_status
set_job_status-JobEnded job_id message now db = (
  All-update_where_new _ _ _ db.jobs (λ j e k. (refl, now, refl)) (λ j e k. cc),
  All-update_where_new _ _ _ db.jobs (λ j e k. (refl, now, refl)) (λ j e k. cc),
)

module _ {H : Env → Type 0} (up : (e : Env) → H e → IsUp e) where
  pub update_job_status-failed :
      (job_id message : String)
      → Establishes H
          (JobEnded job_id JobStatus.failed)
          (update_job_status job_id JobStatus.failed message)
  unfolding update_job_status
  update_job_status-failed job_id message =
      Establishes-exec _ up λ e now db. (set_job_status-JobEnded job_id message now db).0

  pub update_job_status-completed :
      (job_id message : String)
      → Establishes H
          (JobEnded job_id JobStatus.completed)
          (update_job_status job_id JobStatus.completed message)
  unfolding update_job_status
  update_job_status-completed job_id message =
      Establishes-exec _ up λ e now db. (set_job_status-JobEnded job_id message now db).1

-- Every row of the deployment has the status.
abbrev pub DeploymentRows : Uuid → String → List Deployment → Type 0
DeploymentRows id status = All (λ d. nat_eq d.id id ≡ true → d.status ≡ status)

abbrev pub DeploymentIs : Uuid → String → Database → Type 0
DeploymentIs id status db = DeploymentRows id status db.deployments

-- Every row of the deployment has the status and the URL.
abbrev pub ServingRows : Uuid → String → String → List Deployment → Type 0
ServingRows id status url =
    All (λ d. nat_eq d.id id ≡ true → (d.status ≡ status) × (d.service_url ≡ url))

abbrev pub DeploymentServes : Uuid → String → String → Database → Type 0
DeploymentServes id status url db = ServingRows id status url db.deployments

-- Every row of the cluster has the status, the kubeconfig and the address.
abbrev pub ClusterRows : Uuid → String → Bytes → String → List Cluster → Type 0
ClusterRows id status kubeconfig public_ip = All (λ c.
    nat_eq c.id id ≡ true
    → (c.status ≡ status) × (c.kubeconfig ≡ kubeconfig) × (c.public_ip ≡ public_ip))

abbrev pub ClusterIs : Uuid → String → Bytes → String → Database → Type 0
ClusterIs id status kubeconfig public_ip db = ClusterRows id status kubeconfig public_ip db.clusters

-- Every row of the cluster has the status.
abbrev pub StatusRows : Uuid → String → List Cluster → Type 0
StatusRows id status = All (λ c. nat_eq c.id id ≡ true → c.status ≡ status)

abbrev pub ClusterHas : Uuid → String → Database → Type 0
ClusterHas id status db = StatusRows id status db.clusters

-- Every deployment of the cluster is orphaned, unless it was deleted or had failed.
abbrev pub AbandonedRows : Uuid → List Deployment → Type 0
AbandonedRows cluster_id = All (λ d.
    nat_eq d.cluster_id cluster_id ≡ true
    → (d.status ≡ DeploymentStatus.orphaned)
      ⊎ ((d.status == DeploymentStatus.deleted) ≡ true)
      ⊎ ((d.status == DeploymentStatus.failed) ≡ true))

abbrev pub ClusterAbandoned : Uuid → Database → Type 0
ClusterAbandoned cluster_id db = AbandonedRows cluster_id db.deployments

-- A row of the cluster that the update leaves alone.
spared :
    (deleted failed : Bool)
    → (true && not deleted && not failed) ≡ false
    → {A : Type 0} → A ⊎ (deleted ≡ true) ⊎ (failed ≡ true)
spared true failed h = inr (inl refl)
spared false true h = inr (inr refl)
spared false false h = cc

module _ {H : Env → Type 0} (up : (e : Env) → H e → IsUp e) where
  pub update_deployment_status-Is :
      (id : Uuid) (status : String)
      → Establishes H (DeploymentIs id status) (update_deployment_status id status)
  unfolding update_deployment_status set_deployment_status
  update_deployment_status-Is id status =
      Establishes-exec _ up
        λ e now db. All-update_where_new _ _ _ db.deployments (λ d h k. refl) (λ d h k. cc)

  pub update_deployment_service_url-Serves :
      (id : Uuid) (status url : String)
      → Establishes H (DeploymentServes id status url) (update_deployment_service_url id status url)
  unfolding update_deployment_service_url set_deployment_url
  update_deployment_service_url-Serves id status url =
      Establishes-exec _ up
        λ e now db. All-update_where_new _ _ _ db.deployments (λ d h k. (refl, refl)) (λ d h k. cc)

  pub update_cluster_details-Is :
      (id : Uuid) (status : String) (kubeconfig : Bytes) (ip : String)
      → Establishes H
          (ClusterIs id status kubeconfig ip)
          (update_cluster_details id status kubeconfig ip)
  unfolding update_cluster_details set_cluster_details
  update_cluster_details-Is id status kubeconfig ip =
      Establishes-exec _ up λ e now db.
        All-update_where_new _ _ _ db.clusters (λ d h k. (refl, refl, refl)) (λ d h k. cc)

  pub update_cluster_status-Has :
      (id : Uuid) (status : String)
      → Establishes H (ClusterHas id status) (update_cluster_status id status)
  unfolding update_cluster_status set_cluster_status
  update_cluster_status-Has id status =
      Establishes-exec _ up
        λ e now db. All-update_where_new _ _ _ db.clusters (λ d h k. refl) (λ d h k. cc)

  pub update_deployments_status_by_cluster-Abandoned :
      (id : Uuid)
      → Establishes H
          (ClusterAbandoned id)
          (update_deployments_status_by_cluster id DeploymentStatus.orphaned)
  unfolding update_deployments_status_by_cluster set_deployments_status_by_cluster
  update_deployments_status_by_cluster-Abandoned id = Establishes-exec _ up λ e now db.
      All-update_where_new _ _ _ db.deployments (λ d h k. inl refl)
        (λ d h k. spared (d.status == DeploymentStatus.deleted) _ (rw k at h))

  -- These updates return nil.
  pub update_deployment_status-nil :
      (id : Uuid) (status : String) (e : Env)
      → H e
      → (w : World) → (update_deployment_status id status e w).0 ≡ ok tt
  unfolding update_deployment_status
  update_deployment_status-nil id status e h w = ap (λ r. r.0) (exec-ok _ e w (up e h))

  pub update_deployment_service_url-nil :
      (id : Uuid) (status url : String) (e : Env)
      → H e
      → (w : World) → (update_deployment_service_url id status url e w).0 ≡ ok tt
  unfolding update_deployment_service_url
  update_deployment_service_url-nil id status url e h w = ap (λ r. r.0) (exec-ok _ e w (up e h))

  pub update_cluster_details-nil :
      (id : Uuid) (status : String) (kubeconfig : Bytes) (ip : String) (e : Env)
      → H e
      → (w : World) → (update_cluster_details id status kubeconfig ip e w).0 ≡ ok tt
  unfolding update_cluster_details
  update_cluster_details-nil id status kubeconfig ip e h w = ap (λ r. r.0) (exec-ok _ e w (up e h))

-- An update of one table keeps what is known of another.
pub update_job_status-deployments :
    (P : List Deployment → Type 0) (job_id status message : String)
    → Keeps (λ db. P db.deployments) (update_job_status job_id status message)
unfolding update_job_status set_job_status
update_job_status-deployments P job_id status message =
    Keeps-exec _ λ e now db db' h done. subst (λ x. P x.deployments) (ok-injective done) h

pub update_job_status-clusters :
    (P : List Cluster → Type 0) (job_id status message : String)
    → Keeps (λ db. P db.clusters) (update_job_status job_id status message)
unfolding update_job_status set_job_status
update_job_status-clusters P job_id status message =
    Keeps-exec _ λ e now db db' h done. subst (λ x. P x.clusters) (ok-injective done) h

pub update_deployments_status_by_cluster-clusters :
    (P : List Cluster → Type 0) (id : Uuid) (status : String)
    → Keeps (λ db. P db.clusters) (update_deployments_status_by_cluster id status)
unfolding update_deployments_status_by_cluster set_deployments_status_by_cluster
update_deployments_status_by_cluster-clusters P id status =
    Keeps-exec _ λ e now db db' h done. subst (λ x. P x.clusters) (ok-injective done) h

pub update_deployment_status-clusters :
    (P : List Cluster → Type 0) (id : Uuid) (status : String)
    → Keeps (λ db. P db.clusters) (update_deployment_status id status)
unfolding update_deployment_status set_deployment_status
update_deployment_status-clusters P id status =
    Keeps-exec _ λ e now db db' h done. subst (λ x. P x.clusters) (ok-injective done) h

pub update_deployment_service_url-clusters :
    (P : List Cluster → Type 0) (id : Uuid) (status url : String)
    → Keeps (λ db. P db.clusters) (update_deployment_service_url id status url)
unfolding update_deployment_service_url set_deployment_url
update_deployment_service_url-clusters P id status url =
    Keeps-exec _ λ e now db db' h done. subst (λ x. P x.clusters) (ok-injective done) h
