-- ===== src/Store/Migrate/Seen.antt =====
-- The row of a version, and what leaves it there when it returns nil.
use Prim.Native.String.{String}
use tark.Common.{ℕ, suc, true, none, List, [], ◌∷◌, ◌++◌, Error, ok, err, ◌≡◌, refl, arith}
use tark.Models.{Bytes, pos}
use tark.Store.Migrate.Filename.{parse_filename}
use tark.Store.Migrate.Checksum.{compute_checksum}
use tark.Store.Migrate.{
  Host, Schema, Applied, Outcome, tick, row_error, either_error, in_int4, has_version, exists_row,
  committed, commit_migration, record_migration, run_script, begin_migration,
}
use tark.Store.Migrate.Induction.{Stable, migration, called-elim, row_error-none, either_error-none}

-- The row of a version is there to be seen.
abbrev pub Seen : ℕ → Schema → Type 0
Seen v s = exists_row none v s ≡ true

-- The name of the file has a positive version, and its row is there to be seen.
pub record Recorded (s : Schema) (filename : String) : Type 0 where
  pub version : ℕ
  pub parsed : (parse_filename filename).0 ≡ pos (suc version)
  pub seen : exists_row none (suc version) s ≡ true

has_version-append :
    (v : ℕ) (rows more : List Applied)
    → has_version v rows ≡ true
    → has_version v (rows ++ more) ≡ true
unfolding has_version
has_version-append v [] more h = cc
has_version-append v (row ∷ rows) more h = ground (arith, h, has_version-append v rows more)

pub has_version-last :
    (v : ℕ) (checksum : String) (rows : List Applied)
    → has_version v (rows ++ (record { version = v; checksum = checksum } ∷ [])) ≡ true
unfolding has_version
has_version-last v checksum [] = ground arith
has_version-last v checksum (row ∷ rows) = ground (arith, has_version-last v checksum rows)

pub Seen-Stable : (v : ℕ) → Stable (Seen v)
unfolding exists_row committed
Seen-Stable v = record {
  at_call = λ s p. p;
  at_table = λ s p. ground (arith, p);
  at_commit = λ w content s positive fits absent p. ground (
    arith,
    p,
    has_version-append v s.applied
        (record { version = w; checksum = compute_checksum content } ∷ []),
  );
}

pub HasTable-Stable : Stable (λ s. s.has_table ≡ true)
unfolding committed
HasTable-Stable = record {
  at_call = λ s p. p;
  at_table = λ s p. refl;
  at_commit = λ v content s positive fits absent p. p;
}

-- An outcome that is nil leaves the row of a version.
pub record Done (v : ℕ) (o : Outcome) : Type 0 where
  pub at : o.0 ≡ ok tt → Seen v o.1

pub failed : {v : ℕ} (context : Error) (s : Schema) → Done v (err context, s)
failed context s = record { at = λ nil_. cc }

module _ (h : Host) (v : ℕ) (name : String) (content : Bytes) where
  commit_migration-Done :
      (s : Schema)
      → s.has_table ≡ true
      → in_int4 v ≡ true
      → Done v (commit_migration h v name content (migration v content) s)
  unfolding commit_migration committed exists_row
  commit_migration-Done s table fits =
      called-elim (Done v) (h.fault s.moment) _ (ok tt, tick (committed (migration v content) s))
        (λ x. failed _ _)
        λ fine. record {
          at = λ nil_.
              rw (table, fits, has_version-last v (compute_checksum content) s.applied) refl;
        }

  record_migration-Done :
      (s : Schema)
      → s.has_table ≡ true
      → Done v (record_migration h v name content (record { ran = content ∷ []; inserted = [] }) s)
  unfolding record_migration
  record_migration-Done s table =
      called-elim (Done v) (either_error (h.fault s.moment) (row_error h v s)) _
        (commit_migration h v name content (migration v content) (tick s)) (λ x. failed _ _)
        λ fine.
          let (fits, absent) = row_error-none h v s (either_error-none (h.fault s.moment) _ fine) in
          commit_migration-Done (tick s) table fits

  pub begin_migration-Done :
      (s : Schema) → s.has_table ≡ true → Done v (begin_migration h v name content s)
  unfolding begin_migration run_script
  begin_migration-Done s table =
      called-elim (Done v) (h.fault s.moment) _
        (run_script h v name content (record { ran = []; inserted = [] }) (tick s))
        (λ x. failed _ _)
        λ begun.
          called-elim (Done v)
            (either_error (h.fault (suc s.moment)) (h.script_error s.scripts content)) _
            (record_migration h v name content (record { ran = content ∷ []; inserted = [] })
              (tick (tick s)))
            (λ x. failed _ _) λ ran. record_migration-Done (tick (tick s)) table
