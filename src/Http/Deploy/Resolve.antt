-- ===== src/Http/Deploy/Resolve.antt =====
-- resolveClusterID: a model is only ever deployed to an active cluster.
use mathlib.Core.List.{Memᴰ}
use mathlib.Core.Path.{subst}
use tark.Common.{
  ℕ, suc, String, List, Option, none, some, true, Bool-cases, ◌≡◌, sym, ap, inl, inr, ◌==◌, nat_eq,
  nat_eq_iff, find_first, find_first_test, ok, Result-cases,
}
use tark.Common.Results.{or_fail-ok, ok-injective}
use tark.Common.Members.{find_first-Mem, map-Mem, take-Mem, sort_desc-Mem, select_where-Mem}
use tark.Models.{Uuid, Cluster}
use tark.Models.ClusterStatus
use tark.Store.{Database}
use tark.Store.Select.{select_cluster, select_clusters, select_organization_by_name}
use tark.Store.Methods.{get_cluster, list_clusters, get_organization_by_name}
use tark.Http.Deploy.{
  Resolved, resolved, refused, active_or_refused, first_or_refused, resolve_given, resolve_default,
  resolve_cluster_id,
}
use tark.System.Env.{Env}
use tark.System.Keeps.{attempt-eq-ok}
use tark.System.Act.{
  store_fault, World, ◌>>=◌, pure, asks, check, branch, query, query_rows, cut, attempt,
}

-- What is resolved is the id of a stored cluster that is active.
abbrev pub OnActive : Database → Resolved → Type 0
OnActive db (resolved id) =
    (c : Cluster) × Memᴰ c db.clusters × (c.id ≡ id) × ((c.status == ClusterStatus.active) ≡ true)
OnActive db (refused x) = Unit

active_or_refused-OnActive :
    (db : Database) (id : Uuid) (c : Cluster)
    → Memᴰ c db.clusters
    → c.id ≡ id
    → OnActive db (active_or_refused id c)
unfolding active_or_refused
active_or_refused-OnActive db id c m same = elim (Bool-cases (c.status == ClusterStatus.active)) [
  | inl active ↦ rw active (c, m, same, active)
  | inr other ↦ rw other tt
]

select_cluster-Mem :
    (id : Uuid) (db : Database) (c : Cluster)
    → select_cluster id db ≡ ok c
    → Memᴰ c db.clusters × (c.id ≡ id)
unfolding select_cluster
select_cluster-Mem id db c h =
    let found = or_fail-ok _ _ h in
    (
      find_first-Mem _ db.clusters found,
      (nat_eq_iff c.id id).0 (find_first_test (λ (k : Cluster). nat_eq k.id id) db.clusters found),
    )

cut-Mem :
    {A : Type 0} (read : Option ℕ) (rows : List A) {x : A} → Memᴰ x (cut read rows) → Memᴰ x rows
unfolding cut
cut-Mem none rows m = m
cut-Mem (some n) rows m = take-Mem n rows m

first_or_refused-OnActive :
    (db : Database) (org_id : Uuid) (read : Option ℕ) (o : Option Cluster)
    → find_first
        (λ (c : Cluster). c.status == ClusterStatus.active)
        (cut read (select_clusters org_id db))
      ≡ o
    → OnActive db (first_or_refused o)
unfolding first_or_refused select_clusters
first_or_refused-OnActive db org_id read none h = tt
first_or_refused-OnActive db org_id read (some c) h =
    let active = find_first_test (λ (k : Cluster). k.status == ClusterStatus.active) _ h in
    let (row, sorted, same) = map-Mem _ _ (cut-Mem read _ (find_first-Mem _ _ h)) in
    let (stored, owned) =
      select_where-Mem _ db.clusters (sort_desc-Mem (λ k. k.created_at) _ sorted) in
    (
      row,
      stored,
      sym (ap (λ (k : Cluster). k.id) same),
      subst (λ (k : Cluster). (k.status == ClusterStatus.active) ≡ true) same active,
    )

module _ (e : Env) (w : World) where
  given : (text : String) → OnActive w.db (resolve_given text e w).0
  unfolding resolve_given check branch asks pure ◌>>=◌ get_cluster query
  given text = elim (Result-cases (e.parse_uuid text)) [
    | inr (x, bad) ↦ rw bad tt
    | inl (id, read) ↦
        elim (Result-cases (attempt (store_fault e w.moment) (select_cluster id w.db))) [
          | inr (x, bad) ↦ rw (read, bad) tt
          | inl (c, found) ↦
              let (m, same) = select_cluster-Mem id w.db c (attempt-eq-ok _ _ found) in
              rw (read, found) (active_or_refused-OnActive w.db id c m same)
        ]
  ]

  by_default : OnActive w.db (resolve_default e w).0
  unfolding resolve_default check branch pure ◌>>=◌ get_organization_by_name list_clusters query
      query_rows
  by_default =
      elim (Result-cases
        (attempt (store_fault e w.moment) (select_organization_by_name "default" w.db))) [
          | inr (x, bad) ↦ rw bad tt
          | inl (org, found) ↦
              elim (Result-cases (
                attempt (store_fault e (suc w.moment))
                  (ok (cut (e.rows_cut (suc w.moment)) (select_clusters org.id w.db))))) [
                    | inr (x, bad) ↦ rw (found, bad) tt
                    | inl (cs, listed) ↦
                        rw (found, listed)
                          (first_or_refused-OnActive w.db org.id (e.rows_cut (suc w.moment)) _ (
                            ap (find_first (λ (c : Cluster). c.status == ClusterStatus.active))
                              (ok-injective (attempt-eq-ok _ _ listed))))
                  ]
        ]

  -- Whatever the outside answers, a cluster id that a deploy request is resolved to, given or not, is that
  -- of a stored cluster which is active.
  pub resolve_cluster_id-OnActive : (raw : String) → OnActive w.db (resolve_cluster_id raw e w).0
  unfolding resolve_cluster_id
  resolve_cluster_id-OnActive raw = elim (Bool-cases (raw == "")) [
    | inl empty ↦ rw empty by_default
    | inr text ↦ rw text (given raw)
  ]
