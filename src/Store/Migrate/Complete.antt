-- ===== src/Store/Migrate/Complete.antt =====
-- What a run of the migrations that returns nil has done.
use mathlib.Core.List.{Memᴰ}
use mathlib.Core.Path.{subst, sym}
use Prim.Native.String.{String}
use tark.Common.{
  ℕ, suc, zero, Bool, true, false, Option, none, some, List, [], ◌∷◌, All, Error, Result, ok, err,
  ◌≡◌, refl,
}
use tark.Models.{Bytes, ℤ, pos, negsuc}
use tark.Store.Migrate.Filename.{parse_filename, sql_files, has_suffix}
use tark.Store.Migrate.Order.{All-sql_files}
use tark.Store.Migrate.{
  Host, Schema, Outcome, tick, exists_row, read_then, apply_unless, apply_parsed, already_applied,
  apply_file, unless_failed, apply_files, apply_entries, run_embedded_migrations,
}
use tark.Store.Migrate.Induction.{called-elim, apply_file-keeps, apply_files-keeps}
use tark.Store.Migrate.Seen.{
  Seen, Recorded, Seen-Stable, HasTable-Stable, Done, failed, begin_migration-Done,
}

module _ (h : Host) where
  read_then-Done :
      (v : ℕ) (name : String) (s : Schema) (r : Result Bytes)
      → s.has_table ≡ true
      → Done v (read_then h v name s r)
  unfolding read_then
  read_then-Done v name s (ok content) table = begin_migration-Done h v name content s table
  read_then-Done v name s (err x) table = failed _ _

  exists_row-Seen :
      (fault : Option Error) (v : ℕ) (s : Schema) → exists_row fault v s ≡ true → Seen v s
  unfolding exists_row
  exists_row-Seen none v s there = there
  exists_row-Seen (some x) v s there = cc

  apply_unless-Done :
      (v : ℕ) (name filename : String) (there : Bool) (s : Schema)
      → s.has_table ≡ true
      → (there ≡ true → Seen v s)
      → Done v (apply_unless h v name filename (there, s))
  unfolding apply_unless
  apply_unless-Done v name filename true s table seen = record { at = λ nil_. seen refl }
  apply_unless-Done v name filename false s table seen = read_then-Done v name s _ table

  apply_parsed-Done :
      (filename name : String) (v : ℤ) (s : Schema)
      → s.has_table ≡ true
      → (apply_parsed h filename (v, name) s).0 ≡ ok tt
      → (n : ℕ) × (v ≡ pos (suc n)) × Seen (suc n) (apply_parsed h filename (v, name) s).1
  unfolding apply_parsed already_applied exists_row
  apply_parsed-Done filename name (pos zero) s table nil_ = cc
  apply_parsed-Done filename name (negsuc n) s table nil_ = cc
  apply_parsed-Done filename name (pos (suc n)) s table nil_ = (
    n,
    refl,
    (apply_unless-Done (suc n) name filename (exists_row (h.fault s.moment) (suc n) s) (tick s)
          table (exists_row-Seen (h.fault s.moment) (suc n) s)).at
        nil_,
  )

  apply_file-Recorded :
      (filename : String) (s : Schema)
      → s.has_table ≡ true
      → (apply_file h filename s).0 ≡ ok tt
      → Recorded (apply_file h filename s).1 filename
  unfolding apply_file
  apply_file-Recorded filename s table nil_ =
      let (n, parsed, seen) =
        apply_parsed-Done filename (parse_filename filename).1 (parse_filename filename).0 s table
          nil_ in
      record { version = n; parsed = parsed; seen = seen }

  unless_failed-ok :
      (first later : Outcome)
      → (unless_failed first later).0 ≡ ok tt
      → (first.0 ≡ ok tt) × (later.0 ≡ ok tt) × (unless_failed first later ≡ later)
  unfolding unless_failed
  unless_failed-ok (ok tt, s) later nil_ = (refl, nil_, refl)
  unless_failed-ok (err x, s) later nil_ = cc

  Recorded-after :
      (files : List String) (s : Schema) (filename : String)
      → Recorded s filename
      → Recorded (apply_files h files s).1 filename
  Recorded-after files s filename r = record {
    version = r.version;
    parsed = r.parsed;
    seen = apply_files-keeps (Seen-Stable (suc r.version)) h files s r.seen;
  }

  pub apply_files-Recorded :
      (files : List String) (s : Schema)
      → s.has_table ≡ true
      → (apply_files h files s).0 ≡ ok tt
      → All (Recorded (apply_files h files s).1) files
  unfolding apply_files
  apply_files-Recorded [] s table nil_ = tt
  apply_files-Recorded (filename ∷ rest) s table nil_ =
      let after = (apply_file h filename s).1 in
      let (first, later, same) = unless_failed-ok (apply_file h filename s) _ nil_ in
      subst (λ o. All (Recorded o.1) (filename ∷ rest)) (sym same)
        (
          Recorded-after rest after filename (apply_file-Recorded filename s table first),
          apply_files-Recorded rest after (apply_file-keeps HasTable-Stable h filename s table)
              later,
        )

  apply_entries-Recorded :
      (entries : Result (List String)) (names : List String) (s : Schema)
      → entries ≡ ok names
      → s.has_table ≡ true
      → (apply_entries h entries s).0 ≡ ok tt
      → All (Recorded (apply_entries h entries s).1) (sql_files names)
  unfolding apply_entries
  apply_entries-Recorded entries names s known table nil_ =
      rw known (apply_files-Recorded (sql_files names) s table (rw known at nil_))

record AllRecorded (names : List String) (o : Outcome) : Type 0 where
  at : o.0 ≡ ok tt → All (Recorded o.1) (sql_files names)

run-AllRecorded :
    (h : Host) (s : Schema) (names : List String)
    → h.entries ≡ ok names
    → AllRecorded names (run_embedded_migrations h s)
unfolding run_embedded_migrations
run-AllRecorded h s names known =
    called-elim (AllRecorded names) (h.fault s.moment) _
      (apply_entries h h.entries (tick (record s { has_table = true })))
      (λ x. record { at = λ nil_. cc })
      λ fine. record { at = apply_entries-Recorded h h.entries names _ known refl }

pub run-sql_files :
    (h : Host) (s : Schema) (names : List String)
    → h.entries ≡ ok names
    → (run_embedded_migrations h s).0 ≡ ok tt
    → All (Recorded (run_embedded_migrations h s).1) (sql_files names)
run-sql_files h s names known = (run-AllRecorded h s names known).at

-- When a run returns nil, whatever the failures before and in it, each embedded file that ends in .sql has a
-- positive version in its name, and the row of that version is in schema_migrations.
pub run_embedded_migrations-Recorded :
    (h : Host) (s : Schema) (names : List String) (filename : String)
    → h.entries ≡ ok names
    → (run_embedded_migrations h s).0 ≡ ok tt
    → Memᴰ filename names
    → has_suffix ".sql" filename ≡ true
    → Recorded (run_embedded_migrations h s).1 filename
run_embedded_migrations-Recorded h s names filename known nil_ =
    All-sql_files (Recorded (run_embedded_migrations h s).1) names
      (run-sql_files h s names known nil_)
