-- ===== src/System/Ensures.antt =====
-- What code leaves behind while an assumption on the environment holds, whatever the tables were:
-- one rule for each way to build it.
use tark.Common.{ℕ, suc, none, ◌≡◌, refl, Error, Result, ok, err}
use tark.Models.{Time}
use tark.Store.{Database}
use tark.System.Env.{Env}
use tark.System.Act.{
  Act, World, ◌>>=◌, ◌>>◌, pure, branch, check, exec, commit, attempt, store_fault, first_error,
}
use tark.System.Keeps.{Keeps}

-- The connection to the database does not fail, and the caller's context does not end.
pub record IsUp (e : Env) : Type 0 where
  pub reachable : (n : ℕ) → e.db_fault n ≡ none
  pub live : (n : ℕ) → e.cancelled n ≡ none

pub store_fault-none : (e : Env) → IsUp e → (n : ℕ) → store_fault e n ≡ none
unfolding store_fault first_error
store_fault-none e h n = rw (h.live n, h.reachable n) refl

-- After `m`, `P` holds of the tables.
pub record Establishes {A : Type 0} (H : Env → Type 0) (P : Database → Type 0) (m : Act A)
    : Type 0 where
  pub at : (e : Env) → H e → (w : World) → P (m e w).1.db

-- After `m`, `Q` holds of its result and the tables.
pub record Ensures {A : Type 0} (H : Env → Type 0) (Q : A → Database → Type 0) (m : Act A)
    : Type 0 where
  pub at : (e : Env) → H e → (w : World) → Q (m e w).0 (m e w).1.db

-- A statement that is never refused.
pub Establishes-exec :
    {H : Env → Type 0} {P : Database → Type 0} (f : Env → Time → Database → Database)
    → ((e : Env) → H e → IsUp e)
    → ((e : Env) (now : Time) (db : Database) → P (f e now db))
    → Establishes H P (exec (λ e now db. ok (f e now db)))
unfolding exec
Establishes-exec {H} {P} f up h = record {
  at = λ e he w.
      rw (store_fault-none e (up e he) w.moment)
        (unfold commit attempt in h e (e.now w.moment) w.db);
}

-- Such a statement returns nil, and has been made.
pub exec-ok :
    (f : Env → Time → Database → Database) (e : Env) (w : World)
    → IsUp e
    → exec (λ e now db. ok (f e now db)) e w
      ≡ (ok tt, record w { db = f e (e.now w.moment) w.db; moment = suc w.moment })
unfolding exec commit attempt
exec-ok f e w h = rw (store_fault-none e h w.moment)

module _ {A B : Type 0} {H : Env → Type 0} {P : Database → Type 0} where
  pub Establishes-then : (m : Act A) (n : Act B) → Establishes H P n → Establishes H P (m >> n)
  unfolding ◌>>◌
  Establishes-then m n h = record { at = λ e he w. h.at e he (m e w).1 }

  pub Establishes-then_kept :
      (m : Act A) (n : Act B) → Establishes H P m → Keeps P n → Establishes H P (m >> n)
  unfolding ◌>>◌
  Establishes-then_kept m n hm hn = record { at = λ e he w. hn.at e (m e w).1 (hm.at e he w) }

module _ {A B : Type 0} {H : Env → Type 0} {Q : B → Database → Type 0} where
  pub Ensures-return : (m : Act A) (b : B) → Establishes H (Q b) m → Ensures H Q (m >> pure b)
  unfolding ◌>>◌ pure
  Ensures-return m b h = record { at = λ e he w. h.at e he w }

  pub Ensures-then : (m : Act A) (n : Act B) → Ensures H Q n → Ensures H Q (m >> n)
  unfolding ◌>>◌
  Ensures-then m n h = record { at = λ e he w. h.at e he (m e w).1 }

  pub Ensures-bind :
      (m : Act A) (f : A → Act B) → ((a : A) → Ensures H Q (f a)) → Ensures H Q (m >>= f)
  unfolding ◌>>=◌
  Ensures-bind m f h = record { at = λ e he w. let (a, w') = m e w in (h a).at e he w' }

  Ensures-branch :
      (r : Result A) (fail : Error → Act B) (k : A → Act B)
      → ((x : Error) → Ensures H Q (fail x))
      → ((a : A) → Ensures H Q (k a))
      → Ensures H Q (branch r fail k)
  unfolding branch
  Ensures-branch (ok a) fail k hf hk = hk a
  Ensures-branch (err x) fail k hf hk = hf x

  pub Ensures-check :
      (m : Act (Result A)) (fail : Error → Act B) (k : A → Act B)
      → ((x : Error) → Ensures H Q (fail x))
      → ((a : A) → Ensures H Q (k a))
      → Ensures H Q (check m fail k)
  unfolding check
  Ensures-check m fail k hf hk = record {
    at = λ e he w. let (r, w') = m e w in (Ensures-branch r fail k hf hk).at e he w';
  }

  -- A call whose result is known.
  pub Ensures-check_known :
      (m : Act (Result A)) (fail : Error → Act B) (k : A → Act B) (a : A)
      → ((e : Env) → H e → (w : World) → (m e w).0 ≡ ok a)
      → Ensures H Q (k a)
      → Ensures H Q (check m fail k)
  unfolding check branch
  Ensures-check_known m fail k a known hk = record {
    at = λ e he w. rw (known e he w, branch) (hk.at e he (m e w).1);
  }

  -- The same, where what follows relies on what the call has established.
  pub Ensures-check_after :
      {P : Database → Type 0} (m : Act (Result A)) (fail : Error → Act B) (k : A → Act B) (a : A)
      → ((e : Env) → H e → (w : World) → (m e w).0 ≡ ok a)
      → Establishes H P m
      → ((e : Env) → H e → (w : World) → P w.db → Q (k a e w).0 (k a e w).1.db)
      → Ensures H Q (check m fail k)
  unfolding check branch
  Ensures-check_after m fail k a known done hk = record {
    at = λ e he w. rw (known e he w, branch) (hk e he (m e w).1 (done.at e he w));
  }

pub ruleset ensures_rules = (
  Establishes-then, Establishes-then_kept, Ensures-return, Ensures-then, Ensures-bind,
  Ensures-check,
)
