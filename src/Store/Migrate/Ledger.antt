-- ===== src/Store/Migrate/Ledger.antt =====
-- The table schema_migrations, against the scripts that were committed.
use tark.Common.{ℕ, ◌<◌, true, false, List, [], ◌∷◌, ◌++◌, All, All-append, ◌≡◌, refl, ap, map}
use tark.Models.{Bytes}
use tark.Store.Migrate.Checksum.{compute_checksum}
use tark.Store.Migrate.{Host, Schema, has_version, in_int4, committed, run_embedded_migrations}
use tark.Store.Migrate.Induction.{Stable, migration, run_embedded_migrations-keeps}

-- A row for each script that was run and committed, in the same order, with its checksum; the versions are
-- positive.
pub record IsLedger (s : Schema) : Type 0 where
  pub positive : All (λ row. 0 < row.version) s.applied
  pub matching : map (λ row. row.checksum) s.applied ≡ map compute_checksum s.scripts

-- The states that any number of starts reach, each with its own files, answers and failures.
pub data Migrated : Schema → Type 0 where
  fresh : Migrated (record { has_table = false; applied = []; scripts = []; moment = 0 })
  run : (h : Host) {s : Schema} → Migrated s → Migrated (run_embedded_migrations h s).1

map-snoc :
    {A B : Type 0} (f : A → B) (xs : List A) (x : A)
    → map f (xs ++ (x ∷ [])) ≡ map f xs ++ (f x ∷ [])
map-snoc f [] x = refl
map-snoc f (y ∷ xs) x = ap (λ zs. f y ∷ zs) (map-snoc f xs x)

IsLedger-committed :
    (v : ℕ) (content : Bytes) (s : Schema)
    → 0 < v
    → in_int4 v ≡ true
    → has_version v s.applied ≡ false
    → IsLedger s
    → IsLedger (committed (migration v content) s)
unfolding committed
IsLedger-committed v content s positive fits absent l = record {
  positive = All-append _ s.applied _ l.positive (positive, tt);
  matching =
      rw
        (
          map-snoc (λ row. row.checksum) s.applied
              (record { version = v; checksum = compute_checksum content }),
          map-snoc compute_checksum s.scripts content,
          l.matching,
        )
        refl;
}

IsLedger-Stable : Stable IsLedger
IsLedger-Stable = record {
  at_call = λ s l. record { positive = l.positive; matching = l.matching };
  at_table = λ s l. record { positive = l.positive; matching = l.matching };
  at_commit = IsLedger-committed;
}

-- After any number of starts, each with its own files, with failures at any calls and with lost answers to a
-- commit, the rows of schema_migrations are those of the scripts that were run and committed, one
-- for each, in the same order and with its checksum, and their versions are positive.
pub Migrated-IsLedger : {s : Schema} → Migrated s → IsLedger s
Migrated-IsLedger fresh = record { positive = tt; matching = refl }
Migrated-IsLedger (run h before) =
    run_embedded_migrations-keeps IsLedger-Stable h _ (Migrated-IsLedger before)
