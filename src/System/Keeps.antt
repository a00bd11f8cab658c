-- ===== src/System/Keeps.antt =====
-- Invariants of code: one rule for each way to build it.
use tark.Common.{ℕ, Option, none, some, List, ◌≡◌, refl, Error, Result, ok, err}
use tark.Models.{Time}
use tark.Store.{Database}
use tark.System.Env.{Env}
use tark.System.Act.{
  store_fault, Act, World, Event, ◌>>=◌, ◌>>◌, pure, asks, call, request, branch, check, exec,
  query, query_rows, commit, attempt, section, ProxyTable,
}

-- `m` keeps `P` of the tables, whatever the outside answers.
pub record Keeps {A : Type 0} (P : Database → Type 0) (m : Act A) : Type 0 where
  pub at : (e : Env) (w : World) → P w.db → P (m e w).1.db

module _ {A : Type 0} {P : Database → Type 0} where
  pub Keeps-asks : (f : Env → A) → Keeps P (asks f)
  unfolding asks
  Keeps-asks f = record { at = λ e w h. h }

  pub Keeps-call : (f : Env → ℕ → A) → Keeps P (call f)
  unfolding call
  Keeps-call f = record { at = λ e w h. h }

  pub Keeps-request : (ev : Event) (f : Env → ℕ → A) → Keeps P (request ev f)
  unfolding request
  Keeps-request ev f = record { at = λ e w h. h }

  pub Keeps-pure : (result : A) → Keeps P (pure result)
  unfolding pure
  Keeps-pure result = record { at = λ e w kept. kept }

  pub Keeps-section : (f : ProxyTable → A × ProxyTable) → Keeps P (section f)
  unfolding section
  Keeps-section f = record { at = λ e w kept. kept }

  pub Keeps-query : (read : Database → Result A) → Keeps P (query read)
  unfolding query
  Keeps-query read = record { at = λ e w h. h }

  pub Keeps-query_rows : (read : Database → List A) → Keeps P (query_rows read)
  unfolding query_rows
  Keeps-query_rows read = record { at = λ e w h. h }

commit-keeps :
    (P : Database → Type 0) (w : World) (r : Result Database)
    → P w.db
    → ((db : Database) → r ≡ ok db → P db)
    → P (commit w r).1.db
unfolding commit
commit-keeps P w (ok db) h keep = keep db refl
commit-keeps P w (err x) h keep = h

-- A statement that succeeds was not cut off.
pub attempt-eq-ok {ℓ} :
    {A : Type ℓ} (fault : Option Error) (r : Result A) {a : A} → attempt fault r ≡ ok a → r ≡ ok a
unfolding attempt
attempt-eq-ok none r e = e
attempt-eq-ok (some x) r e = cc

pub Keeps-exec :
    {P : Database → Type 0} (statement : Env → Time → Database → Result Database)
    → ((e : Env) (now : Time) (db db' : Database) → P db → statement e now db ≡ ok db' → P db')
    → Keeps P (exec statement)
unfolding exec
Keeps-exec {P} statement keep = record {
  at = λ e w h. commit-keeps P w _ h (λ db done.
      keep e (e.now w.moment) w.db db h (attempt-eq-ok (store_fault e w.moment) _ done));
}

module _ {A B : Type 0} {P : Database → Type 0} where
  pub Keeps-bind :
      (act : Act A) (next : A → Act B)
      → Keeps P act
      → ((result : A) → Keeps P (next result))
      → Keeps P (act >>= next)
  unfolding ◌>>=◌
  Keeps-bind act next first rest = record {
    at = λ e w kept. let (result, w') = act e w in (rest result).at e w' (first.at e w kept);
  }

  pub Keeps-then : (m : Act A) (n : Act B) → Keeps P m → Keeps P n → Keeps P (m >> n)
  unfolding ◌>>◌
  Keeps-then m n km kn = record { at = λ e w h. kn.at e (m e w).1 (km.at e w h) }

  Keeps-branch :
      (r : Result A) (fail : Error → Act B) (k : A → Act B)
      → ((x : Error) → Keeps P (fail x))
      → ((a : A) → Keeps P (k a))
      → Keeps P (branch r fail k)
  unfolding branch
  Keeps-branch (ok a) fail k kf kk = kk a
  Keeps-branch (err x) fail k kf kk = kf x

  pub Keeps-check :
      (m : Act (Result A)) (fail : Error → Act B) (k : A → Act B)
      → Keeps P m
      → ((x : Error) → Keeps P (fail x))
      → ((a : A) → Keeps P (k a))
      → Keeps P (check m fail k)
  unfolding check
  Keeps-check m fail k km kf kk = record {
    at = λ e w h. let (r, w') = m e w in (Keeps-branch r fail k kf kk).at e w' (km.at e w h);
  }

pub ruleset keeps_rules = (
  Keeps-pure, Keeps-asks, Keeps-call, Keeps-request, Keeps-section, Keeps-query, Keeps-query_rows,
  Keeps-bind, Keeps-then, Keeps-check,
)
