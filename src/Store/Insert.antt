-- ===== src/Store/Insert.antt =====
-- The INSERT statements of internal/store/postgres.go, with the keys, the unique columns and the
-- references of the schema. A statement that is refused leaves the tables as they were.
use tark.Common.{
  String, Option, none, some, Bool, true, false, not, ◌||◌, ◌&&◌, List, [], ◌∷◌, ◌++◌, ◌==◌, nat_eq,
  find_first, Result, ok,
}
use tark.Common.Results.{◌>>=◌, ◌>>◌, guard, or_fail}
use tark.Models.{Uuid, Organization, Cluster, Deployment, Job}
use tark.Store.{Database, Postgres, duplicate_key, missing_reference, invalid_text}

-- Some row passes the test.
abbrev pub exists {ℓ} : {A : Type ℓ} → (A → Bool) → List A → Bool
exists p xs = elim (find_first p xs) [ none ↦ false | some x ↦ true ]

unfoldable pub has_organization : Uuid → Database → Bool
has_organization id db = exists (λ (o : Organization). nat_eq o.id id) db.organizations

unfoldable pub has_cluster : Uuid → Database → Bool
has_cluster id db = exists (λ (c : Cluster). nat_eq c.id id) db.clusters

unfoldable pub has_deployment : Uuid → Database → Bool
has_deployment id db = exists (λ (d : Deployment). nat_eq d.id id) db.deployments

module _ (pg : Postgres) where
  unfoldable pub insert_organization : Organization → Database → Result Database
  insert_organization org db = do
    guard (not (has_organization org.id db)) (pg.violation duplicate_key)
    guard (not (exists (λ o. o.name == org.name) db.organizations)) (pg.violation duplicate_key)
    ok (record db { organizations = db.organizations ++ org ∷ [] })

  -- UNIQUE(org_id, name)
  unfoldable pub insert_cluster : Cluster → Database → Result Database
  insert_cluster c db = do
    guard (not (has_cluster c.id db)) (pg.violation duplicate_key)
    guard (not (exists (λ o. nat_eq o.org_id c.org_id && o.name == c.name) db.clusters))
        (pg.violation duplicate_key)
    guard (has_organization c.org_id db) (pg.violation missing_reference)
    ok (record db { clusters = db.clusters ++ c ∷ [] })

  unfoldable pub insert_deployment : Deployment → Database → Result Database
  insert_deployment d db = do
    guard (not (has_deployment d.id db)) (pg.violation duplicate_key)
    guard (has_cluster d.cluster_id db) (pg.violation missing_reference)
    ok (record db { deployments = db.deployments ++ d ∷ [] })

  -- A nullable uuid column that refers to a table: the text is read, and the row must be there.
  reference : (Uuid → Bool) → Option String → Result (Option String)
  reference present none = ok none
  reference present (some text) = do
    id ← or_fail (pg.read_uuid text) (pg.violation invalid_text)
    guard (present id) (pg.violation missing_reference)
    ok (some (pg.show_uuid id))

  -- The row as it is stored: the uuid columns and the jsonb column in their stored form.
  unfoldable pub stored_job : Job → Database → Result Job
  unfolding reference
  stored_job job db = do
    payload ← or_fail (pg.read_jsonb job.payload) (pg.violation invalid_text)
    cluster ← reference (λ id. has_cluster id db) job.cluster_id
    deployment ← reference (λ id. has_deployment id db) job.deployment_id
    ok (record job { payload = payload; cluster_id = cluster; deployment_id = deployment })

  -- `job.ID` is filled in by the caller where it is uuid.Nil; the columns `error`, `started_at` and
  -- `completed_at` are not in the statement and stay NULL.
  unfoldable pub insert_job : Job → Database → Result Database
  unfolding stored_job
  insert_job job db = do
    row ← stored_job job db
    guard (not (exists (λ j. nat_eq j.id row.id || j.job_id == row.job_id) db.jobs))
        (pg.violation duplicate_key)
    ok (record db {
      jobs = db.jobs ++ record row { error = none; started_at = none; completed_at = none } ∷ [];
    })
