-- ===== src/Store/Migrate/Filename.antt =====
-- parseFilename of internal/store/migrate.go, and the choice and order of the migrations' files.
use Prim.Native.Char.{Char, code}
use Prim.Native.Nat.{Ordering}
use Prim.Native.String.{String, compare}
use tark.Common.{
  Bool, true, false, ◌||◌, Option, none, some, List, [], ◌∷◌, nat_eq, select_where, ◌==◌,
  if◌then◌else◌,
}
use tark.Models.{ℤ, negsuc}
use tark.Text.Numbers.{atoi}

-- strings.HasSuffix
unfoldable pub has_suffix : String → String → Bool
has_suffix ending String.[] = ending == ""
has_suffix ending (String.◌∷◌ c s) = String.◌∷◌ c s == ending || has_suffix ending s

-- strings.TrimSuffix
unfoldable pub trim_suffix : String → String → String
trim_suffix ending String.[] = ""
trim_suffix ending (String.◌∷◌ c s) =
    let rest = String.◌∷◌ c (trim_suffix ending s) in if String.◌∷◌ c s == ending then "" else rest

-- One character more in front of the first part.
unfoldable pub in_front : Char → Option (String × String) → Option (String × String)
in_front c none = none
in_front c (some (a, b)) = some (String.◌∷◌ c a, b)

-- strings.SplitN(s, "_", 2): the parts around the first underscore, if there is one.
unfoldable pub split_underscore : String → Option (String × String)
unfolding in_front
split_underscore String.[] = none
split_underscore (String.◌∷◌ c s) =
    let later = in_front c (split_underscore s) in
    if nat_eq (code c) 95 then some ("", s) else later

unfoldable pub versioned : String → Option ℤ → String → ℤ × String
versioned name none rest = (negsuc 0, name)
versioned name (some v) rest = (v, rest)

unfoldable pub parse_parts : String → Option (String × String) → ℤ × String
unfolding versioned
parse_parts name none = (negsuc 0, name)
parse_parts name (some (v, rest)) = versioned name (atoi v) rest

unfoldable pub parse_filename : String → ℤ × String
unfolding parse_parts
parse_filename filename =
    let name = trim_suffix ".sql" filename in parse_parts name (split_underscore name)

-- The order of sort.Strings.
abbrev pub is_le : String → String → Bool
is_le x y = elim (compare x y) [ Ordering.gt ↦ false | _ ↦ true ]

unfoldable pub insert_name : String → List String → List String
insert_name x [] = x ∷ []
insert_name x (y ∷ ys) = let later = y ∷ insert_name x ys in if is_le x y then x ∷ y ∷ ys else later

unfoldable pub sort_names : List String → List String
unfolding insert_name
sort_names [] = []
sort_names (x ∷ xs) = insert_name x (sort_names xs)

-- The .sql files, in order.
unfoldable pub sql_files : List String → List String
unfolding sort_names
sql_files entries = sort_names (select_where (has_suffix ".sql") entries)
