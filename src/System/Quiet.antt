-- ===== src/System/Quiet.antt =====
-- Code that changes no row, while the count of calls only goes up: one rule for each way to build it.
use tark.Common.{
  ℕ, ◌≤◌, ◌≡◌, refl, ◌∙◌, arith, Bool, true, false, if◌then◌else◌, Error, Result, ok, err,
}
use tark.Store.{Database}
use tark.System.Env.{Env}
use tark.System.Act.{
  Act, World, Event, ProxyTable, ◌>>=◌, ◌>>◌, pure, asks, call, request, section, branch, check,
  query,
}

pub record Quiet {A : Type 0} (m : Act A) : Type 0 where
  pub forward : (e : Env) (w : World) → w.moment ≤ (m e w).1.moment
  pub unchanged : (e : Env) (w : World) → (m e w).1.db ≡ w.db

module _ {A : Type 0} where
  pub Quiet-pure : (a : A) → Quiet (pure a)
  unfolding pure
  Quiet-pure a = record { forward = λ e w. omega arith; unchanged = λ e w. refl }

  pub Quiet-asks : (f : Env → A) → Quiet (asks f)
  unfolding asks
  Quiet-asks f = record { forward = λ e w. omega arith; unchanged = λ e w. refl }

  pub Quiet-call : (f : Env → ℕ → A) → Quiet (call f)
  unfolding call
  Quiet-call f = record { forward = λ e w. omega arith; unchanged = λ e w. refl }

  pub Quiet-request : (ev : Event) (f : Env → ℕ → A) → Quiet (request ev f)
  unfolding request
  Quiet-request ev f = record { forward = λ e w. omega arith; unchanged = λ e w. refl }

  pub Quiet-section : (f : ProxyTable → A × ProxyTable) → Quiet (section f)
  unfolding section
  Quiet-section f = record { forward = λ e w. omega arith; unchanged = λ e w. refl }

  pub Quiet-query : (read : Database → Result A) → Quiet (query read)
  unfolding query
  Quiet-query read = record { forward = λ e w. omega arith; unchanged = λ e w. refl }

  pub Quiet-if : (b : Bool) (m n : Act A) → Quiet m → Quiet n → Quiet (if b then m else n)
  Quiet-if true m n qm qn = qm
  Quiet-if false m n qm qn = qn

module _ {A B : Type 0} where
  pub Quiet-bind : (m : Act A) (f : A → Act B) → Quiet m → ((a : A) → Quiet (f a)) → Quiet (m >>= f)
  unfolding ◌>>=◌
  Quiet-bind m f qm qf = record {
    forward = λ e w. let (a, w') = m e w in omega (arith, qm.forward e w, (qf a).forward e w');
    unchanged = λ e w. let (a, w') = m e w in (qf a).unchanged e w' ∙ qm.unchanged e w;
  }

  pub Quiet-then : (m : Act A) (n : Act B) → Quiet m → Quiet n → Quiet (m >> n)
  unfolding ◌>>◌
  Quiet-then m n qm qn = record {
    forward = λ e w. omega (arith, qm.forward e w, qn.forward e (m e w).1);
    unchanged = λ e w. qn.unchanged e (m e w).1 ∙ qm.unchanged e w;
  }

module _ {A B : Type 0} where
  Quiet-branch :
      (r : Result A) (fail : Error → Act B) (k : A → Act B)
      → ((x : Error) → Quiet (fail x))
      → ((a : A) → Quiet (k a))
      → Quiet (branch r fail k)
  unfolding branch
  Quiet-branch (ok a) fail k qf qk = qk a
  Quiet-branch (err x) fail k qf qk = qf x

  pub Quiet-check :
      (m : Act (Result A)) (fail : Error → Act B) (k : A → Act B)
      → Quiet m
      → ((x : Error) → Quiet (fail x))
      → ((a : A) → Quiet (k a))
      → Quiet (check m fail k)
  unfolding check
  Quiet-check m fail k qm qf qk = Quiet-bind m _ qm λ r. Quiet-branch r fail k qf qk

pub ruleset quiet_rules = (
  Quiet-pure, Quiet-asks, Quiet-call, Quiet-request, Quiet-section, Quiet-query, Quiet-if,
  Quiet-bind, Quiet-then, Quiet-check,
)
