-- ===== src/Store/Migrate/Order.antt =====
-- What holds of the migrations' files in order holds of all that end in .sql.
use Prim.Native.String.{String}
use mathlib.Core.Path.{subst, sym}
use mathlib.Core.List.{Memᴰ}
use tark.Common.Members.{All-Mem, Mem-select_where}
use tark.Common.{List, [], ◌∷◌, All, Bool-cases, select_where, inl, inr, ◌≡◌, true}
use tark.Store.Migrate.Filename.{sql_files, has_suffix, sort_names, insert_name, is_le}

-- What holds of the names in order holds of the names.
All-insert_name :
    (Q : String → Type 0) (x : String) (xs : List String)
    → All Q (insert_name x xs)
    → Q x × All Q xs
unfolding insert_name
All-insert_name Q x [] h = h
All-insert_name Q x (y ∷ ys) h = elim (Bool-cases (is_le x y)) [
  | inl before ↦ rw before at h
  | inr after ↦
      let (hy, rest) : Q y × All Q (insert_name x ys) = rw after at h in
      let (hx, hys) = All-insert_name Q x ys rest in (hx, (hy, hys))
]

All-sort_names : (Q : String → Type 0) (xs : List String) → All Q (sort_names xs) → All Q xs
unfolding sort_names
All-sort_names Q [] h = h
All-sort_names Q (x ∷ xs) h =
    let (hx, rest) = All-insert_name Q x (sort_names xs) h in (hx, All-sort_names Q xs rest)

pub All-sql_files :
    (Q : String → Type 0) (names : List String) {filename : String}
    → All Q (sql_files names)
    → Memᴰ filename names
    → has_suffix ".sql" filename ≡ true
    → Q filename
unfolding sql_files
All-sql_files Q names h m ending =
    let (x, hx, same) =
      All-Mem Q (select_where (has_suffix ".sql") names)
        (All-sort_names Q (select_where (has_suffix ".sql") names) h)
        (Mem-select_where (has_suffix ".sql") names m ending) in
    subst Q (sym same) hx
