-- ===== src/Store/Consistency.antt =====
-- What the statements of internal/store/postgres.go keep true of the tables: statuses of the
-- lifecycle, references to rows that are there, and the keys of the schema.
pub mod Keys
pub mod Inserts
use tark.Common.{
  All-map, String, none, Bool, true, List, [], ◌∷◌, ◌++◌, ◌≡◌, refl, ◌∙◌, ap, arith, nat_eq, ◌==◌,
  ◌||◌, ◌&&◌, All, All-append, All-update_where, find_first-append, find_first-update_where,
  update_where, ok,
}
use tark.Common.Results.{bind-eq-ok}
use mathlib.Core.Path.{subst}
use tark.Models.{Uuid, Time, Bytes, Organization, Cluster, Deployment, Job}
use tark.Models.ClusterStatus
use tark.Models.DeploymentStatus
use tark.Models.JobStatus
use tark.Store.{Database, Postgres, empty}
use tark.Store.Insert.{
  exists, has_organization, has_cluster, insert_organization, insert_cluster, insert_deployment,
  insert_job, stored_job,
}
use tark.Store.Consistency.Keys.{Apart, Apart-update_where}
use tark.Store.Update.{
  set_cluster_status, set_cluster_details, reset_cluster, set_deployment_status, set_deployment_url,
  set_deployments_status_by_cluster, set_job_status,
}

-- UNIQUE and PRIMARY KEY of the four tables: two rows of which one would be refused.
abbrev pub same_organization : Organization → Organization → Bool
same_organization a b = nat_eq a.id b.id || a.name == b.name

abbrev pub same_cluster : Cluster → Cluster → Bool
same_cluster a b = nat_eq a.id b.id || nat_eq a.org_id b.org_id && a.name == b.name

abbrev pub same_deployment : Deployment → Deployment → Bool
same_deployment a b = nat_eq a.id b.id

abbrev pub same_job : Job → Job → Bool
same_job a b = nat_eq a.id b.id || a.job_id == b.job_id

pub record IsConsistent (db : Database) : Type 0 where
  pub clusters_known : All (λ c. ClusterStatus.IsKnown c.status) db.clusters
  pub deployments_known : All (λ d. DeploymentStatus.IsKnown d.status) db.deployments
  pub jobs_known : All (λ j. JobStatus.IsKnown j.status) db.jobs
  pub clusters_owned : All (λ c. has_organization c.org_id db ≡ true) db.clusters
  pub deployments_placed : All (λ d. has_cluster d.cluster_id db ≡ true) db.deployments
  pub organizations_keyed : Apart same_organization db.organizations
  pub clusters_keyed : Apart same_cluster db.clusters
  pub deployments_keyed : Apart same_deployment db.deployments
  pub jobs_keyed : Apart same_job db.jobs

pub empty-IsConsistent : IsConsistent empty
empty-IsConsistent = record {
  clusters_known = tt;
  deployments_known = tt;
  jobs_known = tt;
  clusters_owned = tt;
  deployments_placed = tt;
  organizations_keyed = tt;
  clusters_keyed = tt;
  deployments_keyed = tt;
  jobs_keyed = tt;
}

-- A row that is there stays there when rows are added, or updated with the test unchanged.
exists-append {ℓ} :
    {A : Type ℓ} (p : A → Bool) (xs ys : List A) → exists p xs ≡ true → exists p (xs ++ ys) ≡ true
exists-append p xs ys h = ground (arith, find_first-append p xs ys)

exists-update_where {ℓ} :
    {A : Type ℓ} (p q : A → Bool) (f : A → A) (xs : List A)
    → ((x : A) → q (f x) ≡ q x)
    → exists q (update_where p f xs) ≡ exists q xs
exists-update_where p q f xs same = ground (arith, find_first-update_where p q f xs same)

-- An update of clusters that keeps the keys and writes a known status.
module _ (p : Cluster → Bool) (f : Cluster → Cluster) (db : Database) where
  clusters_updated :
      ((c : Cluster) → ClusterStatus.IsKnown (f c).status)
      → ((c : Cluster) → (f c).id ≡ c.id)
      → ((c : Cluster) → (f c).org_id ≡ c.org_id)
      → ((c : Cluster) → (f c).name ≡ c.name)
      → IsConsistent db
      → IsConsistent (record db { clusters = update_where p f db.clusters })
  unfolding has_cluster has_organization
  clusters_updated known same_id same_org same_name h = record {
    clusters_known =
        All-update_where (λ c. ClusterStatus.IsKnown c.status) p f db.clusters (λ c _ _. known c)
          h.clusters_known;
    deployments_known = h.deployments_known;
    jobs_known = h.jobs_known;
    clusters_owned =
        All-update_where _ p f db.clusters (λ c _ owned. rw (same_org c) owned) h.clusters_owned;
    deployments_placed =
        All-map _ _ db.deployments
          (λ d placed.
            exists-update_where p (λ c. nat_eq c.id d.cluster_id) f db.clusters
              (λ c. ap (λ i. nat_eq i d.cluster_id) (same_id c))
            ∙ placed)
          h.deployments_placed;
    organizations_keyed = h.organizations_keyed;
    clusters_keyed =
        Apart-update_where same_cluster p f db.clusters
          (λ c d. rw (same_id c, same_org c, same_name c) refl)
          (λ c d. rw (same_id d, same_org d, same_name d) refl) h.clusters_keyed;
    deployments_keyed = h.deployments_keyed;
    jobs_keyed = h.jobs_keyed;
  }

module _ (p : Deployment → Bool) (f : Deployment → Deployment) (db : Database) where
  deployments_updated :
      ((d : Deployment) → DeploymentStatus.IsKnown (f d).status)
      → ((d : Deployment) → (f d).id ≡ d.id)
      → ((d : Deployment) → (f d).cluster_id ≡ d.cluster_id)
      → IsConsistent db
      → IsConsistent (record db { deployments = update_where p f db.deployments })
  unfolding has_cluster has_organization
  deployments_updated known same_id same_place h = record {
    clusters_known = h.clusters_known;
    deployments_known =
        All-update_where (λ d. DeploymentStatus.IsKnown d.status) p f db.deployments
          (λ d _ _. known d) h.deployments_known;
    jobs_known = h.jobs_known;
    clusters_owned = h.clusters_owned;
    deployments_placed =
        All-update_where _ p f db.deployments (λ d _ placed. rw (same_place d) placed)
          h.deployments_placed;
    organizations_keyed = h.organizations_keyed;
    clusters_keyed = h.clusters_keyed;
    deployments_keyed =
        Apart-update_where same_deployment p f db.deployments (λ c d. rw (same_id c) refl)
          (λ c d. rw (same_id d) refl) h.deployments_keyed;
    jobs_keyed = h.jobs_keyed;
  }

module _ (now : Time) (db : Database) (h : IsConsistent db) where
  pub set_cluster_status-IsConsistent :
      (id : Uuid) (status : String)
      → ClusterStatus.IsKnown status
      → IsConsistent (set_cluster_status id status now db)
  unfolding set_cluster_status
  set_cluster_status-IsConsistent id status k =
      clusters_updated _ _ db (λ c. k) (λ c. refl) (λ c. refl) (λ c. refl) h

  pub set_cluster_details-IsConsistent :
      (id : Uuid) (status : String) (kubeconfig : Bytes) (ip : String)
      → ClusterStatus.IsKnown status
      → IsConsistent (set_cluster_details id status kubeconfig ip now db)
  unfolding set_cluster_details
  set_cluster_details-IsConsistent id status kubeconfig ip k =
      clusters_updated _ _ db (λ c. k) (λ c. refl) (λ c. refl) (λ c. refl) h

  pub reset_cluster-IsConsistent :
      (id : Uuid) (region status : String)
      → ClusterStatus.IsKnown status
      → IsConsistent (reset_cluster id region status now db)
  unfolding reset_cluster
  reset_cluster-IsConsistent id region status k =
      clusters_updated _ _ db (λ c. k) (λ c. refl) (λ c. refl) (λ c. refl) h

  pub set_deployment_status-IsConsistent :
      (id : Uuid) (status : String)
      → DeploymentStatus.IsKnown status
      → IsConsistent (set_deployment_status id status now db)
  unfolding set_deployment_status
  set_deployment_status-IsConsistent id status k =
      deployments_updated _ _ db (λ d. k) (λ d. refl) (λ d. refl) h

  pub set_deployment_url-IsConsistent :
      (id : Uuid) (status url : String)
      → DeploymentStatus.IsKnown status
      → IsConsistent (set_deployment_url id status url now db)
  unfolding set_deployment_url
  set_deployment_url-IsConsistent id status url k =
      deployments_updated _ _ db (λ d. k) (λ d. refl) (λ d. refl) h

  pub set_deployments_status_by_cluster-IsConsistent :
      (id : Uuid) (status : String)
      → DeploymentStatus.IsKnown status
      → IsConsistent (set_deployments_status_by_cluster id status now db)
  unfolding set_deployments_status_by_cluster
  set_deployments_status_by_cluster-IsConsistent id status k =
      deployments_updated _ _ db (λ d. k) (λ d. refl) (λ d. refl) h

  pub set_job_status-IsConsistent :
      (job_id status message : String)
      → JobStatus.IsKnown status
      → IsConsistent (set_job_status job_id status message now db)
  unfolding set_job_status has_cluster has_organization
  set_job_status-IsConsistent job_id status message k = record {
    clusters_known = h.clusters_known;
    deployments_known = h.deployments_known;
    jobs_known =
        All-update_where (λ j. JobStatus.IsKnown j.status) _ _ db.jobs (λ j _ _. k) h.jobs_known;
    clusters_owned = h.clusters_owned;
    deployments_placed = h.deployments_placed;
    organizations_keyed = h.organizations_keyed;
    clusters_keyed = h.clusters_keyed;
    deployments_keyed = h.deployments_keyed;
    jobs_keyed = Apart-update_where same_job _ _ db.jobs (λ i j. refl) (λ i j. refl) h.jobs_keyed;
  }
