-- ===== src/System/Leads.antt =====
-- What code leaves behind where the tables have a property before it: one rule for each way to build it; and what
-- a result tells of the answers it came from.
use tark.Common.{Error, Result, ok, err, ◌≡◌, inl, inr, Result-cases}
use mathlib.Core.Path.{subst}
use tark.Common.Results.{ok-injective}
use tark.Store.{Database}
use tark.System.Env.{Env}
use tark.System.Act.{Act, World, ◌>>=◌, ◌>>◌, pure, branch, check, query}
use tark.System.Keeps.{Keeps, attempt-eq-ok}
use tark.System.Ensures.{Establishes, Ensures}

-- Where `P` holds of the tables before `m`, `Q` holds of its result and the tables after it.
pub record Leads {A : Type 0} (H : Env → Type 0) (P : Database → Type 0) (Q : A → Database → Type 0)
    (m : Act A) : Type 0 where
  pub at : (e : Env) → H e → (w : World) → P w.db → Q (m e w).0 (m e w).1.db

pub Leads-anyway :
    {A : Type 0} {H : Env → Type 0} {P : Database → Type 0} {Q : A → Database → Type 0} (m : Act A)
    → Ensures H Q m
    → Leads H P Q m
Leads-anyway m h = record { at = λ e he w p. h.at e he w }

module _ {A B : Type 0} {H : Env → Type 0} {P : Database → Type 0} {Q : B → Database → Type 0} where
  pub Leads-then : (m : Act A) (n : Act B) → Keeps P m → Leads H P Q n → Leads H P Q (m >> n)
  unfolding ◌>>◌
  Leads-then m n km h = record { at = λ e he w p. h.at e he (m e w).1 (km.at e w p) }

  pub Leads-bind :
      (m : Act A) (f : A → Act B)
      → Keeps P m
      → ((a : A) → Leads H P Q (f a))
      → Leads H P Q (m >>= f)
  unfolding ◌>>=◌
  Leads-bind m f km h = record { at = λ e he w p. (h (m e w).0).at e he (m e w).1 (km.at e w p) }

  pub Leads-check :
      (m : Act (Result A)) (fail : Error → Act B) (k : A → Act B)
      → Keeps P m
      → ((x : Error) → Leads H P Q (fail x))
      → ((a : A) → Leads H P Q (k a))
      → Leads H P Q (check m fail k)
  unfolding check branch ◌>>=◌
  Leads-check m fail k km hf hk = record {
    at = λ e he w p. elim (Result-cases (m e w).0) [
      | inl (a, fine) ↦ rw fine ((hk a).at e he (m e w).1 (km.at e w p))
      | inr (x, bad) ↦ rw bad ((hf x).at e he (m e w).1 (km.at e w p))
    ];
  }

  -- A call whose result is known, where what follows relies on what the call has established.
  pub Leads-check_after :
      {S : Database → Type 0} (m : Act (Result A)) (fail : Error → Act B) (k : A → Act B) (a : A)
      → ((e : Env) → H e → (w : World) → (m e w).0 ≡ ok a)
      → Establishes H S m
      → Keeps P m
      → ((e : Env) → H e → (w : World) → P w.db → S w.db → Q (k a e w).0 (k a e w).1.db)
      → Leads H P Q (check m fail k)
  unfolding check branch ◌>>=◌
  Leads-check_after m fail k a known done km hk = record {
    at = λ e he w p. rw (known e he w) (hk e he (m e w).1 (km.at e w p) (done.at e he w));
  }

module _ {A B : Type 0} {H : Env → Type 0} {Q : B → Database → Type 0} where
  -- What was read holds of the tables that follow.
  pub Ensures-check-query :
      (read : Database → Result A) (fail : Error → Act B) (k : A → Act B)
      → ((x : Error) → Ensures H Q (fail x))
      → ((a : A) → Leads H (λ db. read db ≡ ok a) Q (k a))
      → Ensures H Q (check (query read) fail k)
  unfolding check branch query ◌>>=◌
  Ensures-check-query read fail k hf hk = record {
    at = λ e he w. elim (Result-cases (query read e w).0) [
      | inl (a, fine) ↦ rw fine ((hk a).at e he _ (attempt-eq-ok _ _ fine))
      | inr (x, bad) ↦ rw bad ((hf x).at e he _)
    ];
  }

  -- A call whose error is known.
  pub Ensures-check_failed :
      (m : Act (Result A)) (fail : Error → Act B) (k : A → Act B) (x : Error)
      → ((e : Env) → H e → (w : World) → (m e w).0 ≡ err x)
      → Ensures H Q (fail x)
      → Ensures H Q (check m fail k)
  unfolding check branch ◌>>=◌
  Ensures-check_failed m fail k x known hf = record {
    at = λ e he w. rw (known e he w) (hf.at e he (m e w).1);
  }

-- What `m` returns without an error has the property.
pub record Returns {A : Type 0} (e : Env) (R : A → Type 0) (m : Act (Result A)) : Type 0 where
  pub at : (w : World) (a : A) → (m e w).0 ≡ ok a → R a

module _ {A : Type 0} {e : Env} {R : A → Type 0} where
  pub Returns-err : (x : Error) → Returns e R (pure (err x))
  unfolding pure
  Returns-err x = record { at = λ w a same. cc }

  pub Returns-ok : (a : A) → R a → Returns e R (pure (ok a))
  unfolding pure
  Returns-ok a h = record { at = λ w b same. subst R (ok-injective same) h }

  module _ {B : Type 0} where
    pub Returns-then : (m : Act B) (n : Act (Result A)) → Returns e R n → Returns e R (m >> n)
    unfolding ◌>>◌
    Returns-then m n h = record { at = λ w a same. h.at (m e w).1 a same }

    pub Returns-bind :
        (m : Act B) (f : B → Act (Result A))
        → ((w : World) → Returns e R (f (m e w).0))
        → Returns e R (m >>= f)
    unfolding ◌>>=◌
    Returns-bind m f h = record { at = λ w a same. (h w).at (m e w).1 a same }

    pub Returns-check :
        (m : Act (Result B)) (fail : Error → Act (Result A)) (k : B → Act (Result A))
        → ((x : Error) → Returns e R (fail x))
        → ((w : World) (b : B) → (m e w).0 ≡ ok b → Returns e R (k b))
        → Returns e R (check m fail k)
    unfolding check branch ◌>>=◌
    Returns-check m fail k hf hk = record {
      at = λ w a same. elim (Result-cases (m e w).0) [
        | inl (b, fine) ↦ (hk w b fine).at (m e w).1 a (rw fine at same)
        | inr (x, bad) ↦ (hf x).at (m e w).1 a (rw bad at same)
      ];
    }

-- What follows a call relies on what its result tells.
pub Ensures-check-Returns :
    {A B : Type 0} {H : Env → Type 0} {Q : B → Database → Type 0} {R : A → Type 0} (setting : Env)
    (m : Act (Result A)) (fail : Error → Act B) (k : A → Act B)
    → ((e : Env) → H e → e ≡ setting)
    → Returns setting R m
    → ((x : Error) → Ensures H Q (fail x))
    → ((a : A) → R a → Ensures H Q (k a))
    → Ensures H Q (check m fail k)
unfolding check branch ◌>>=◌
Ensures-check-Returns setting m fail k same returns hf hk = record {
  at = λ e he w. elim (Result-cases (m e w).0) [
    | inl (a, fine) ↦
        let told = returns.at w a (subst (λ x. (m x w).0 ≡ ok a) (same e he) fine) in
        rw fine ((hk a told).at e he (m e w).1)
    | inr (x, bad) ↦ rw bad ((hf x).at e he (m e w).1)
  ];
}
