-- ===== src/Store/Migrate/Again.antt =====
-- A second run of the migrations.
use Prim.Native.String.{String}
use tark.Common.{ℕ, suc, true, none, List, [], ◌∷◌, All, All-map, Result, ok, ◌≡◌, refl}
use tark.Store.Migrate.Filename.{sql_files}
use tark.Store.Migrate.{
  Host, Schema, Outcome, tick, called, exists_row, apply_unless, apply_parsed, already_applied,
  apply_file, unless_failed, apply_files, apply_entries, run_embedded_migrations,
}
use tark.Store.Migrate.Seen.{Recorded, Seen-Stable}
use tark.Store.Migrate.Complete.{run-sql_files}

-- Only the count of the calls may differ.
pub record Unchanged (s : Schema) (o : Outcome) : Type 0 where
  pub nil_error : o.0 ≡ ok tt
  pub applied : o.1.applied ≡ s.applied
  pub scripts : o.1.scripts ≡ s.scripts

ticked : (filename : String) (s : Schema) → Recorded s filename → Recorded (tick s) filename
ticked filename s r = record {
  version = r.version;
  parsed = r.parsed;
  seen = (Seen-Stable (suc r.version)).at_call s r.seen;
}

tabled :
    (filename : String) (s : Schema)
    → Recorded s filename
    → Recorded (tick (record s { has_table = true })) filename
unfolding exists_row
tabled filename s r = record {
  version = r.version;
  parsed = r.parsed;
  seen = (Seen-Stable (suc r.version)).at_table s r.seen;
}

module _ (h : Host) (up : (n : ℕ) → h.fault n ≡ none) where
  apply_file-skips :
      (filename : String) (s : Schema)
      → Recorded s filename
      → apply_file h filename s ≡ (ok tt, tick s)
  unfolding apply_file apply_parsed already_applied apply_unless
  apply_file-skips filename s r = rw (r.parsed, up s.moment, r.seen) refl

  apply_files-Unchanged :
      (files : List String) (s : Schema)
      → All (Recorded s) files
      → Unchanged s (apply_files h files s)
  unfolding apply_files
  apply_files-Unchanged [] s r = record { nil_error = refl; applied = refl; scripts = refl }
  apply_files-Unchanged (filename ∷ rest) s r =
      rw (apply_file-skips filename s r.0, unless_failed)
        (let later =
            apply_files-Unchanged rest (tick s)
              (All-map (Recorded s) (Recorded (tick s)) rest (λ f. ticked f s) r.1) in
          record { nil_error = later.nil_error; applied = later.applied; scripts = later.scripts })

  apply_entries-Unchanged :
      (entries : Result (List String)) (names : List String) (s : Schema)
      → entries ≡ ok names
      → All (Recorded s) (sql_files names)
      → Unchanged s (apply_entries h entries s)
  unfolding apply_entries
  apply_entries-Unchanged entries names s known r =
      rw known (apply_files-Unchanged (sql_files names) s r)

  run-Unchanged :
      (names : List String) (s : Schema)
      → h.entries ≡ ok names
      → All (Recorded s) (sql_files names)
      → Unchanged s (run_embedded_migrations h s)
  unfolding run_embedded_migrations called
  run-Unchanged names s known r =
      let s' : Schema = tick (record s { has_table = true }) in
      let again =
        apply_entries-Unchanged h.entries names s' known
          (All-map (Recorded s) (Recorded s') (sql_files names) (λ f. tabled f s) r) in
      rw (up s.moment)
        (record { nil_error = again.nil_error; applied = again.applied; scripts = again.scripts })

-- Once a run has returned nil, a later run of the same files, with nothing failing, returns nil and neither
-- commits a script nor changes schema_migrations.
pub run_embedded_migrations_again :
    (h h' : Host) (s : Schema) (names : List String)
    → h.entries ≡ ok names
    → h'.entries ≡ ok names
    → (run_embedded_migrations h s).0 ≡ ok tt
    → ((n : ℕ) → h'.fault n ≡ none)
    → Unchanged
        (run_embedded_migrations h s).1
        (run_embedded_migrations h' (run_embedded_migrations h s).1)
run_embedded_migrations_again h h' s names known known' nil_ up =
    run-Unchanged h' up names _ known' (run-sql_files h s names known nil_)
