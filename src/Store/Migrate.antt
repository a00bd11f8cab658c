-- ===== src/Store/Migrate.antt =====
-- internal/store/migrate.go: the embedded migrations, applied in order, each in a transaction of its own.
pub mod Filename
pub mod Checksum
pub mod Order
pub mod Induction
pub mod Ledger
pub mod Seen
pub mod Complete
pub mod Again
use Prim.Native.String.{String}
use tark.Common.{
  ℕ, zero, suc, ◌^◌, Bool, true, false, ◌&&◌, ◌||◌, Option, none, some, List, [], ◌∷◌, ◌++◌, ltb,
  nat_eq, Error, Result, ok, err, ◌<>◌, wrap, if◌then◌else◌,
}
use tark.Models.{Bytes, ℤ, pos, negsuc}
use tark.Text.{show_int}
use tark.Store.Migrate.Filename.{parse_filename, sql_files}
use tark.Store.Migrate.Checksum.{compute_checksum}

-- A row of schema_migrations.
pub record Applied : Type 0 where
  pub version : ℕ
  pub checksum : String

-- What the migrations see of PostgreSQL: the table of the applied ones, if it is there, and the scripts that
-- have been committed, the oldest first; and the count of the calls.
pub record Schema : Type 0 where
  pub has_table : Bool
  pub applied : List Applied
  pub scripts : List Bytes
  pub moment : ℕ

-- The embedded files, the connection, and the server's refusal of a script, of a version that is no int4
-- and of one that is already there.
pub record Host : Type 0 where
  pub entries : Result (List String)
  pub read_file : String → Result Bytes
  pub fault : ℕ → Option Error
  pub script_error : List Bytes → Bytes → Option Error
  pub out_of_range : ℕ → Error
  pub duplicate : ℕ → Error
  -- whether the server has made a commit that failed, the answer alone being lost
  pub lost_answer : ℕ → Bool

abbrev tick : Schema → Schema
tick s = record s { moment = suc s.moment }

-- A version is recorded.
unfoldable pub has_version : ℕ → List Applied → Bool
has_version v [] = false
has_version v (row ∷ rows) = nat_eq row.version v || has_version v rows

unfoldable pub in_int4 : ℕ → Bool
in_int4 v = ltb v (2 ^ 31)

-- The answer of a query that fails is false.
unfoldable pub exists_row : Option Error → ℕ → Schema → Bool
exists_row none v s = s.has_table && in_int4 v && has_version v s.applied
exists_row (some x) v s = false

unfoldable pub already_applied : Host → ℕ → Schema → Bool × Schema
unfolding exists_row
already_applied h v s = (exists_row (h.fault s.moment) v s, tick s)

-- `x, err := call; if err != nil { return fail }; k`
unfoldable pub called : {A : Type 0} → Option Error → (Error → A) → A → A
called none fail k = k
called (some x) fail k = fail x

-- Why the server refuses the row of a version.
unfoldable pub row_error : Host → ℕ → Schema → Option Error
row_error h v s =
    if in_int4 v
    then (if has_version v s.applied then some (h.duplicate v) else none)
    else some (h.out_of_range v)

-- A statement fails with its connection, or is refused.
unfoldable pub either_error : Option Error → Option Error → Option Error
either_error none refused = refused
either_error (some x) refused = some x

abbrev pub Outcome : Type 0
Outcome = Result (Unit {0}) × Schema

-- What the statements of an open transaction have done.
pub record Transaction : Type 0 where
  pub ran : List Bytes
  pub inserted : List Applied

-- A commit makes what the transaction did visible, all at once.
unfoldable pub committed : Transaction → Schema → Schema
committed t s = record s { applied = s.applied ++ t.inserted; scripts = s.scripts ++ t.ran }

module _ (h : Host) (v : ℕ) (name : String) (content : Bytes) where
  unfoldable pub commit_migration : Transaction → Schema → Outcome
  unfolding committed called
  commit_migration t s =
      called (h.fault s.moment)
        (λ x. (
          wrap ("commit migration " <> show_int (pos v)) x,
          tick (if h.lost_answer s.moment then committed t s else s),
        ))
        (ok tt, tick (committed t s))

  -- The row; after an error the transaction is rolled back.
  unfoldable pub record_migration : Transaction → Schema → Outcome
  unfolding commit_migration called either_error row_error
  record_migration t s =
      called (either_error (h.fault s.moment) (row_error h v s))
        (λ x. (wrap ("record migration " <> show_int (pos v)) x, tick (tick s)))
        (commit_migration
          (record t {
            inserted =
                t.inserted ++ (record { version = v; checksum = compute_checksum content } ∷ []);
          })
          (tick s))

  unfoldable pub run_script : Transaction → Schema → Outcome
  unfolding record_migration called either_error
  run_script t s =
      called (either_error (h.fault s.moment) (h.script_error s.scripts content))
        (λ x. (wrap ("run migration " <> show_int (pos v) <> " " <> name) x, tick (tick s)))
        (record_migration (record t { ran = t.ran ++ (content ∷ []) }) (tick s))

  unfoldable pub begin_migration : Schema → Outcome
  unfolding run_script called
  begin_migration s =
      called (h.fault s.moment)
        (λ x. (wrap ("begin txn for migration " <> show_int (pos v)) x, tick s))
        (run_script (record { ran = []; inserted = [] }) (tick s))

unfoldable pub read_then : Host → ℕ → String → Schema → Result Bytes → Outcome
unfolding begin_migration
read_then h v name s (ok content) = begin_migration h v name content s
read_then h v name s (err x) = (wrap ("read migration " <> show_int (pos v)) x, s)

unfoldable pub apply_unless : Host → ℕ → String → String → Bool × Schema → Outcome
unfolding read_then
apply_unless h v name filename (true, s) = (ok tt, s)
apply_unless h v name filename (false, s) =
    read_then h v name s (h.read_file ("migrations/" <> filename))

unfoldable pub apply_parsed : Host → String → ℤ × String → Schema → Outcome
unfolding apply_unless
apply_parsed h filename (pos (suc n), name) s =
    apply_unless h (suc n) name filename (already_applied h (suc n) s)
apply_parsed h filename _ s =
    (err ("invalid migration filename: " <> filename <> " (expected <version>_name.sql)"), s)

-- One round of the loop.
unfoldable pub apply_file : Host → String → Schema → Outcome
unfolding apply_parsed
apply_file h filename s = apply_parsed h filename (parse_filename filename) s

-- An error ends the loop.
unfoldable pub unless_failed : Outcome → Outcome → Outcome
unless_failed (ok done, s) later = later
unless_failed (err x, s) later = (err x, s)

unfoldable pub apply_files : Host → List String → Schema → Outcome
unfolding unless_failed
apply_files h [] s = (ok tt, s)
apply_files h (filename ∷ rest) s =
    let first = apply_file h filename s in unless_failed first (apply_files h rest first.1)

unfoldable pub apply_entries : Host → Result (List String) → Schema → Outcome
apply_entries h (ok names) s = apply_files h (sql_files names) s
apply_entries h (err x) s = (wrap "read migration embed dir" x, s)

unfoldable pub run_embedded_migrations : Host → Schema → Outcome
unfolding called apply_entries
run_embedded_migrations h s =
    called (h.fault s.moment) (λ x. (wrap "ensure schema_migrations table" x, tick s))
      (apply_entries h h.entries (tick (record s { has_table = true })))
