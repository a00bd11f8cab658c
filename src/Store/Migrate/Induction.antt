-- ===== src/Store/Migrate/Induction.antt =====
-- What RunEmbeddedMigrations keeps: a predicate that a call, the making of the table and the commit of a
-- version that is not recorded leave true.
use Prim.Native.String.{String}
use tark.Common.{
  ℕ, suc, zero, ◌<◌, Bool, true, false, Option, none, some, List, [], ◌∷◌, Error, Result, ok, err,
  Bool-cases, inl, inr, ◌≡◌, refl, arith,
}
use tark.Models.{Bytes, ℤ, pos, negsuc}
use tark.Store.Migrate.Filename.{parse_filename, sql_files}
use tark.Store.Migrate.Checksum.{compute_checksum}
use tark.Store.Migrate.{
  Host, Schema, Transaction, Outcome, tick, called, row_error, either_error, in_int4, has_version,
  committed, commit_migration, record_migration, run_script, begin_migration, read_then,
  apply_unless, apply_parsed, already_applied, apply_file, unless_failed, apply_files,
  apply_entries, run_embedded_migrations,
}

-- The error is one or the code goes on.
pub called-elim :
    {A : Type 0} (Q : A → Type 0) (o : Option Error) (fail : Error → A) (k : A)
    → ((x : Error) → Q (fail x))
    → (o ≡ none → Q k)
    → Q (called o fail k)
unfolding called
called-elim Q none fail k hf hk = hk refl
called-elim Q (some x) fail k hf hk = hf x

pub either_error-none : (x y : Option Error) → either_error x y ≡ none → y ≡ none
unfolding either_error
either_error-none none y h = h
either_error-none (some x) y h = cc

pub row_error-none :
    (h : Host) (v : ℕ) (s : Schema)
    → row_error h v s ≡ none
    → (in_int4 v ≡ true) × (has_version v s.applied ≡ false)
unfolding row_error
row_error-none h v s e = elim (Bool-cases (in_int4 v)) [
  | inl fits ↦ elim (Bool-cases (has_version v s.applied)) [
    | inl there ↦ cc (rw (fits, there) at e)
    | inr absent ↦ (fits, absent)
  ]
  | inr large ↦ cc (rw large at e)
]

-- A transaction that has run a script and inserted its row.
abbrev pub migration : ℕ → Bytes → Transaction
migration v content = record {
  ran = content ∷ [];
  inserted = record { version = v; checksum = compute_checksum content } ∷ [];
}

-- What one run keeps of the schema.
pub record Stable (P : Schema → Type 0) : Type 0 where
  pub at_call : (s : Schema) → P s → P (tick s)
  pub at_table : (s : Schema) → P s → P (record s { has_table = true })
  pub at_commit :
      (v : ℕ) (content : Bytes) (s : Schema)
      → 0 < v
      → in_int4 v ≡ true
      → has_version v s.applied ≡ false
      → P s
      → P (committed (migration v content) s)

module _ {P : Schema → Type 0} (stable : Stable P) (h : Host) where
  abbrev After : Outcome → Type 0
  After o = P o.1

  module _ (v : ℕ) (name : String) (content : Bytes) (positive : 0 < v) where
    commit_migration-keeps :
        (s : Schema)
        → in_int4 v ≡ true
        → has_version v s.applied ≡ false
        → P s
        → P (commit_migration h v name content (migration v content) s).1
    unfolding commit_migration
    commit_migration-keeps s fits absent p =
        let done = stable.at_commit v content s positive fits absent p in
        called-elim After (h.fault s.moment) _ _
          (λ x. elim (Bool-cases (h.lost_answer s.moment)) [
            | inl lost ↦ rw lost (stable.at_call _ done)
            | inr none_ ↦ rw none_ (stable.at_call s p)
          ])
          (λ fine. stable.at_call _ done)

    record_migration-keeps :
        (s : Schema)
        → P s
        → P (record_migration h v name content (record { ran = content ∷ []; inserted = [] }) s).1
    unfolding record_migration
    record_migration-keeps s p =
        called-elim After _ _ _ (λ x. stable.at_call _ (stable.at_call s p))
          λ fine.
            let (fits, absent) =
              row_error-none h v s (either_error-none (h.fault s.moment) _ fine) in
            commit_migration-keeps (tick s) fits absent (stable.at_call s p)

    run_script-keeps :
        (s : Schema)
        → P s
        → P (run_script h v name content (record { ran = []; inserted = [] }) s).1
    unfolding run_script
    run_script-keeps s p =
        called-elim After _ _ _ (λ x. stable.at_call _ (stable.at_call s p))
          λ fine. record_migration-keeps (tick s) (stable.at_call s p)

    begin_migration-keeps : (s : Schema) → P s → P (begin_migration h v name content s).1
    unfolding begin_migration
    begin_migration-keeps s p =
        called-elim After _ _ _ (λ x. stable.at_call s p)
          λ fine. run_script-keeps (tick s) (stable.at_call s p)

  read_then-keeps :
      (v : ℕ) (name : String) (s : Schema) (r : Result Bytes)
      → 0 < v
      → P s
      → P (read_then h v name s r).1
  unfolding read_then
  read_then-keeps v name s (ok content) positive p =
      begin_migration-keeps v name content positive s p
  read_then-keeps v name s (err x) positive p = p

  apply_unless-keeps :
      (v : ℕ) (name filename : String) (there : Bool) (s : Schema)
      → 0 < v
      → P s
      → P (apply_unless h v name filename (there, s)).1
  unfolding apply_unless
  apply_unless-keeps v name filename true s positive p = p
  apply_unless-keeps v name filename false s positive p = read_then-keeps v name s _ positive p

  apply_parsed-keeps :
      (filename name : String) (v : ℤ) (s : Schema)
      → P s
      → P (apply_parsed h filename (v, name) s).1
  unfolding apply_parsed already_applied
  apply_parsed-keeps filename name (pos zero) s p = p
  apply_parsed-keeps filename name (pos (suc n)) s p =
      apply_unless-keeps (suc n) name filename _ (tick s) (omega arith) (stable.at_call s p)
  apply_parsed-keeps filename name (negsuc n) s p = p

  pub apply_file-keeps : (filename : String) (s : Schema) → P s → P (apply_file h filename s).1
  unfolding apply_file
  apply_file-keeps filename s p =
      let (v, name) = parse_filename filename in apply_parsed-keeps filename name v s p

  unless_failed-keeps :
      (first later : Outcome) → After first → After later → After (unless_failed first later)
  unfolding unless_failed
  unless_failed-keeps (ok done, s) later hf hl = hl
  unless_failed-keeps (err x, s) later hf hl = hf

  pub apply_files-keeps : (files : List String) (s : Schema) → P s → P (apply_files h files s).1
  unfolding apply_files
  apply_files-keeps [] s p = p
  apply_files-keeps (filename ∷ rest) s p =
      let after = apply_file-keeps filename s p in
      unless_failed-keeps (apply_file h filename s) _ after (apply_files-keeps rest _ after)

  apply_entries-keeps :
      (entries : Result (List String)) (s : Schema) → P s → P (apply_entries h entries s).1
  unfolding apply_entries
  apply_entries-keeps (ok names) s p = apply_files-keeps (sql_files names) s p
  apply_entries-keeps (err x) s p = p

  pub run_embedded_migrations-keeps : (s : Schema) → P s → P (run_embedded_migrations h s).1
  unfolding run_embedded_migrations
  run_embedded_migrations-keeps s p =
      called-elim After _ _ _ (λ x. stable.at_call s p)
        λ fine. apply_entries-keeps h.entries _ (stable.at_call _ (stable.at_table s p))
