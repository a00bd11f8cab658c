-- ===== src/Worker/Deploy/Ended.antt =====
-- The wait for a node port under a context that ends: nothing can be stored any more.
use tark.Common.{ℕ, suc, ◌≤◌, String, some, Error, ◌≡◌}
use tark.Store.{Database}
use tark.Worker.Deploy.{Health, healthy, timed_out, cancelled}
use tark.System.Env.{Env}
use tark.System.Act.{Act, World}
use tark.System.Quiet.{Quiet}

-- A context that has ended stays ended.
pub record Lasting (e : Env) : Type 0 where
  pub stays :
      (n : ℕ) (x : Error) → e.cancelled n ≡ some x → (y : Error) × (e.cancelled (suc n) ≡ some y)

-- The context has ended at the moment and after it.
record Over (e : Env) (n : ℕ) : Type 0 where
  at : (m : ℕ) → n ≤ m → (y : Error) × (e.cancelled m ≡ some y)

-- While the context has ended, `m` changes no row.
record Powerless {A : Type 0} (m : Act A) : Type 0 where
  at :
      (e : Env) (w : World)
      → Over e w.moment
      → ((m e w).1.db ≡ w.db) × (w.moment ≤ (m e w).1.moment)

-- Where the wait ends with the context, the context has ended before, and no row was changed.
module _ (e : Env) (host_port : String) (lasts : Lasting e) where
  abbrev EndedBy : Health × World → Database → Type 0
  EndedBy (healthy, w') db = Unit
  EndedBy (timed_out, w') db = Unit
  EndedBy (cancelled x, w') db = Over e w'.moment × (w'.db ≡ db)
