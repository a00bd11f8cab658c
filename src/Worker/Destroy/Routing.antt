-- ===== src/Worker/Destroy/Routing.antt =====
-- After a destroy task, the proxy's query gives no URL on the cluster.
use mathlib.Core.List.{Memᴰ}
use mathlib.Core.Path.{subst}
use tark.Common.{
  String, ◌≡◌, refl, false, Bool-cases, inl, inr, [], find_first_test, All-find_first, nat_eq,
  nat_eq_iff, Result, ok, err, ◌==◌,
}
use tark.Common.Results.{or_fail-ok}
use tark.Models.{Uuid, Cluster, Deployment}
use tark.Models.ClusterStatus
use tark.Queue.{Task, DestroyClusterPayload}
use tark.Store.{Database}
use tark.Store.Select.{select_cluster, select_active_targets}
use tark.Store.Select.Targets.{IsTarget, select_active_targets_correct}
use tark.Store.Methods.Effect.{ClusterIs}
use tark.Worker.Destroy.{handle_destroy_cluster_task}
use tark.Worker.Destroy.Outcome.{Destroyed, destroy_task_outcome}
use tark.System.Env.{Env}
use tark.System.Act.{World}
use tark.System.Ensures.{IsUp}

-- A row of the cluster that a query finds is destroyed.
find_destroyed :
    (id : Uuid) (db : Database) (c : Cluster)
    → ClusterIs id ClusterStatus.destroyed [] "" db
    → select_cluster id db ≡ ok c
    → (c.status == ClusterStatus.active) ≡ false
unfolding select_cluster
find_destroyed id db c h found =
    let e = or_fail-ok _ _ found in
    let (status, k, a) = All-find_first _ _ db.clusters h e (find_first_test _ db.clusters e) in
    rw status refl

unrouted :
    (id : Uuid) (db : Database) (model url : String)
    → ClusterIs id ClusterStatus.destroyed [] "" db
    → (t : IsTarget model db url) → nat_eq t.deployment.cluster_id id ≡ false
unrouted id db model url h t = elim (Bool-cases (nat_eq t.deployment.cluster_id id)) [
  | inr other ↦ other
  | inl same ↦
      let placed =
        subst (λ k. select_cluster k db ≡ ok t.cluster)
          ((nat_eq_iff t.deployment.cluster_id id).0 same) t.placed in
      cc (t.cluster_active, find_destroyed id db t.cluster h placed)
]

Destroyed-ok :
    (id : Uuid) (r : Result (Unit {0})) (db : Database)
    → r ≡ ok tt
    → Destroyed id r db
    → ClusterIs id ClusterStatus.destroyed [] "" db
Destroyed-ok id (ok done) db e h = h.0
Destroyed-ok id (err x) db e h = cc

module _ (task : Task) (payload : DestroyClusterPayload) (id : Uuid) where
  -- While the database is up and the task's context does not end, once a destroy task whose payload
  -- and cluster id are read has returned nil, every URL that ListActiveDeploymentTargets gives, for
  -- any model, is that of a stored deployment on another cluster.
  pub destroy_task_unroutes :
      (e : Env) (w : World)
      → IsUp e
      → e.unmarshal_destroy task.payload ≡ ok payload
      → (payload.cluster_id == "") ≡ false
      → e.parse_uuid payload.cluster_id ≡ ok id
      → (handle_destroy_cluster_task task e w).0 ≡ ok tt
      → (model url : String)
      → Memᴰ url (select_active_targets model (handle_destroy_cluster_task task e w).1.db)
      → (d : Deployment) × Memᴰ d (handle_destroy_cluster_task task e w).1.db.deployments
        × (url ≡ d.service_url)
        × (nat_eq d.cluster_id id ≡ false)
  destroy_task_unroutes e w up read given read_id done model url m =
      let db' : Database = (handle_destroy_cluster_task task e w).1.db in
      let t = (select_active_targets_correct model db' url).0 m in
      let gone =
        Destroyed-ok id _ db' done
          (destroy_task_outcome task payload id e w up read given read_id) in
      (t.deployment, t.stored, t.at_url, unrouted id db' model url gone t)
