-- ===== src/Store/Consistency/Inserts.antt =====
-- What the INSERT statements keep true of the tables.
use tark.Common.{
  All-map, none, true, [], ◌∷◌, ◌++◌, ◌≡◌, arith, nat_eq, All-append, false, ◌&&◌, ◌==◌, ok,
}
use tark.Common.Results.{bind-eq-ok}
use mathlib.Core.Path.{subst}
use tark.Models.{Organization, Cluster, Deployment, Job}
use tark.Models.ClusterStatus
use tark.Models.DeploymentStatus
use tark.Models.JobStatus
use tark.Store.{Database, Postgres}
use tark.Store.Insert.{
  exists, has_organization, has_cluster, has_deployment, insert_organization, insert_cluster,
  insert_deployment, insert_job, stored_job,
}
use tark.Store.Consistency.{
  IsConsistent, exists-append, same_organization, same_cluster, same_deployment, same_job,
}
use tark.Store.Consistency.Keys.{Apart-append, exists-false, exists-or}

stored_job-status :
    (pg : Postgres) (j : Job) (db : Database) {row : Job}
    → stored_job pg j db ≡ ok row
    → row.status ≡ j.status
unfolding stored_job
stored_job-status pg j db e = ground arith

-- What an accepted INSERT has checked, and the tables after it.
module _ (pg : Postgres) (db : Database) {db' : Database} where
  insert_organization-inv :
      (org : Organization)
      → insert_organization pg org db ≡ ok db'
      → (has_organization org.id db ≡ false)
        × (exists (λ o. o.name == org.name) db.organizations ≡ false)
        × (record db { organizations = db.organizations ++ org ∷ [] } ≡ db')
  unfolding insert_organization
  insert_organization-inv org e = ground arith

  insert_cluster-inv :
      (c : Cluster)
      → insert_cluster pg c db ≡ ok db'
      → (has_organization c.org_id db ≡ true)
        × (has_cluster c.id db ≡ false)
        × (exists (λ o. nat_eq o.org_id c.org_id && o.name == c.name) db.clusters ≡ false)
        × (record db { clusters = db.clusters ++ c ∷ [] } ≡ db')
  unfolding insert_cluster
  insert_cluster-inv c e = ground arith

  insert_deployment-inv :
      (d : Deployment)
      → insert_deployment pg d db ≡ ok db'
      → (has_cluster d.cluster_id db ≡ true)
        × (has_deployment d.id db ≡ false)
        × (record db { deployments = db.deployments ++ d ∷ [] } ≡ db')
  unfolding insert_deployment
  insert_deployment-inv d e = ground arith

  insert_job-inv :
      (j : Job)
      → insert_job pg j db ≡ ok db'
      → (row : Job) × (row.status ≡ j.status)
        × (exists (λ o. same_job o row) db.jobs ≡ false)
        × (record db { jobs = db.jobs ++ row ∷ [] } ≡ db')
  unfolding insert_job
  insert_job-inv j e =
      let (row, stored, kept) = bind-eq-ok _ _ e in
      (
        record row { error = none; started_at = none; completed_at = none },
        stored_job-status pg j db stored,
        ground arith,
        ground arith,
      )

module _ (pg : Postgres) (db : Database) (h : IsConsistent db) where
  pub insert_organization-IsConsistent :
      (org : Organization) {db' : Database}
      → insert_organization pg org db ≡ ok db'
      → IsConsistent db'
  unfolding has_organization has_cluster
  insert_organization-IsConsistent org e =
      let (new, unnamed, same) = insert_organization-inv pg db org e in
      subst IsConsistent same (record {
        clusters_known = h.clusters_known;
        deployments_known = h.deployments_known;
        jobs_known = h.jobs_known;
        clusters_owned =
            All-map _ _ db.clusters
              (λ c owned. exists-append (λ o. nat_eq o.id c.org_id) db.organizations _ owned)
              h.clusters_owned;
        deployments_placed = h.deployments_placed;
        organizations_keyed =
            Apart-append same_organization db.organizations org
              (exists-or (λ o. nat_eq o.id org.id) (λ o. o.name == org.name) db.organizations new
                unnamed)
              h.organizations_keyed;
        clusters_keyed = h.clusters_keyed;
        deployments_keyed = h.deployments_keyed;
        jobs_keyed = h.jobs_keyed;
      })

  pub insert_cluster-IsConsistent :
      (c : Cluster) {db' : Database}
      → ClusterStatus.IsKnown c.status
      → insert_cluster pg c db ≡ ok db'
      → IsConsistent db'
  unfolding has_organization has_cluster
  insert_cluster-IsConsistent c k e =
      let (owned, new, unnamed, same) = insert_cluster-inv pg db c e in
      subst IsConsistent same (record {
        clusters_known = All-append _ db.clusters (c ∷ []) h.clusters_known (k, tt);
        deployments_known = h.deployments_known;
        jobs_known = h.jobs_known;
        clusters_owned = All-append _ db.clusters (c ∷ []) h.clusters_owned (owned, tt);
        deployments_placed =
            All-map _ _ db.deployments
              (λ d placed. exists-append (λ x. nat_eq x.id d.cluster_id) db.clusters _ placed)
              h.deployments_placed;
        organizations_keyed = h.organizations_keyed;
        clusters_keyed =
            Apart-append same_cluster db.clusters c
              (exists-or (λ o. nat_eq o.id c.id) (λ o. nat_eq o.org_id c.org_id && o.name == c.name)
                db.clusters new unnamed)
              h.clusters_keyed;
        deployments_keyed = h.deployments_keyed;
        jobs_keyed = h.jobs_keyed;
      })

  pub insert_deployment-IsConsistent :
      (d : Deployment) {db' : Database}
      → DeploymentStatus.IsKnown d.status
      → insert_deployment pg d db ≡ ok db'
      → IsConsistent db'
  unfolding has_organization has_cluster has_deployment
  insert_deployment-IsConsistent d k e =
      let (placed, new, same) = insert_deployment-inv pg db d e in
      subst IsConsistent same (record {
        clusters_known = h.clusters_known;
        deployments_known = All-append _ db.deployments (d ∷ []) h.deployments_known (k, tt);
        jobs_known = h.jobs_known;
        clusters_owned = h.clusters_owned;
        deployments_placed = All-append _ db.deployments (d ∷ []) h.deployments_placed (placed, tt);
        organizations_keyed = h.organizations_keyed;
        clusters_keyed = h.clusters_keyed;
        deployments_keyed =
            Apart-append same_deployment db.deployments d
              (exists-false (λ o. nat_eq o.id d.id) db.deployments new) h.deployments_keyed;
        jobs_keyed = h.jobs_keyed;
      })

  pub insert_job-IsConsistent :
      (j : Job) {db' : Database}
      → JobStatus.IsKnown j.status
      → insert_job pg j db ≡ ok db'
      → IsConsistent db'
  unfolding has_organization has_cluster
  insert_job-IsConsistent j k e =
      let (row, same_status, new, same) = insert_job-inv pg db j e in
      subst IsConsistent same (record {
        clusters_known = h.clusters_known;
        deployments_known = h.deployments_known;
        jobs_known = All-append _ db.jobs (row ∷ []) h.jobs_known (rw same_status k, tt);
        clusters_owned = h.clusters_owned;
        deployments_placed = h.deployments_placed;
        organizations_keyed = h.organizations_keyed;
        clusters_keyed = h.clusters_keyed;
        deployments_keyed = h.deployments_keyed;
        jobs_keyed =
            Apart-append same_job db.jobs row (exists-false (λ o. same_job o row) db.jobs new)
              h.jobs_keyed;
      })
