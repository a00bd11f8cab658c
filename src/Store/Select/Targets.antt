-- ===== src/Store/Select/Targets.antt =====
-- ListActiveDeploymentTargets: which URLs the join gives.
use mathlib.Core.List.{Memᴰ}
use mathlib.Core.List.Memᴰ.{cast}
use mathlib.Core.Path.{subst}
use tark.Common.{
  String, Option, none, some, Bool, true, false, not, ◌&&◌, ◌≡◌, refl, sym, ◌↔◌, ◌==◌, nat_eq,
  arith, find_first, Error, ok,
}
use tark.Common.Results.{or_fail, ok-injective}
use tark.Common.Members.{
  select_where-Mem, Mem-select_where, sort_desc-Mem, Mem-sort_desc, map-Mem, Mem-map,
}
use tark.Models.{Cluster, Deployment}
use tark.Models.ClusterStatus
use tark.Models.DeploymentStatus
use tark.Store.{Database}
use tark.Store.Select.{cluster_is_active, is_target, select_active_targets, select_cluster}

-- The URL of an active deployment of the model, on an active cluster.
pub record IsTarget (model : String) (db : Database) (url : String) : Type 0 where
  pub deployment : Deployment
  pub cluster : Cluster
  pub stored : Memᴰ deployment db.deployments
  pub placed : select_cluster deployment.cluster_id db ≡ ok cluster
  pub cluster_active : (cluster.status == ClusterStatus.active) ≡ true
  pub of_model : (deployment.model_name == model) ≡ true
  pub active : (deployment.status == DeploymentStatus.active) ≡ true
  pub has_url : (deployment.service_url == "") ≡ false
  pub at_url : url ≡ deployment.service_url

found_active :
    (o : Option Cluster) (x : Error)
    → elim o [ none ↦ Bool.false | some c ↦ c.status == ClusterStatus.active ] ≡ true
    → (c : Cluster) × (or_fail o x ≡ ok c) × ((c.status == ClusterStatus.active) ≡ true)
found_active none x h = cc
found_active (some c) x h = (c, refl, h)

active_found :
    (o : Option Cluster) (x : Error) (c : Cluster)
    → or_fail o x ≡ ok c
    → (c.status == ClusterStatus.active) ≡ true
    → elim o [ none ↦ Bool.false | some c' ↦ c'.status == ClusterStatus.active ] ≡ true
active_found none x c e h = cc
active_found (some c') x c e h =
    subst (λ k. (k.status == ClusterStatus.active) ≡ true) (ok-injective (sym e)) h

-- The four tests of the WHERE clause.
all_true :
    (a b c d : Bool)
    → (a && b && c && not d) ≡ true
    → (a ≡ true) × (b ≡ true) × (c ≡ true) × (d ≡ false)
all_true a b c d h = ground arith

module _ (model : String) (db : Database) where
  IsTarget-of :
      (d : Deployment) {url : String}
      → Memᴰ d db.deployments
      → is_target model db d ≡ true
      → url ≡ d.service_url
      → IsTarget model db url
  unfolding is_target cluster_is_active select_cluster
  IsTarget-of d m h at_url =
      let (of_model, active, on_active, has_url) = all_true _ _ _ _ h in
      let (c, placed, cluster_active) =
        found_active (find_first (λ c. nat_eq c.id d.cluster_id) db.clusters) _ on_active in
      record {
        deployment = d;
        cluster = c;
        stored = m;
        placed = placed;
        cluster_active = cluster_active;
        of_model = of_model;
        active = active;
        has_url = has_url;
        at_url = at_url;
      }

  is_target-IsTarget :
      {url : String} (t : IsTarget model db url) → is_target model db t.deployment ≡ true
  unfolding is_target cluster_is_active select_cluster
  is_target-IsTarget t =
      rw (t.of_model, t.active, active_found _ _ t.cluster t.placed t.cluster_active, t.has_url)
        refl

  -- The URLs that ListActiveDeploymentTargets gives for a model are exactly the URLs, not empty, of the
  -- active deployments of that model whose cluster is active.
  pub select_active_targets_correct :
      (url : String) → Memᴰ url (select_active_targets model db) ↔ IsTarget model db url
  unfolding select_active_targets
  select_active_targets_correct url = (
    λ m.
        let (d, sorted, q) = map-Mem (λ d. d.service_url) _ m in
        let (stored, h) =
          select_where-Mem _ db.deployments (sort_desc-Mem (λ d. d.updated_at) _ sorted) in
        IsTarget-of d stored h q,
    λ t. cast t.at_url (
        Mem-map (λ d. d.service_url) _
          (Mem-sort_desc (λ d. d.updated_at) _
            (Mem-select_where _ db.deployments t.stored (is_target-IsTarget t)))),
  )
