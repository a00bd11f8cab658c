-- ===== src/Text.antt =====
-- What the program uses of Go's strings, strconv, fmt and net packages, on texts of characters.
pub mod Numbers
pub mod Expand
use Prim.Native.Char.{Char, code}
use Prim.Native.String.{String}
use text.Mathlib.Text.{find?}
use tark.Common.{
  ℕ, zero, suc, ◌+◌, ◌/◌, ◌%◌, Bool, true, false, ◌&&◌, ◌||◌, none, some, [], ◌∷◌, ◌++◌, ltb, leb,
  nat_eq, ◌<>◌, if◌then◌else◌,
}
use tark.Models.{Bytes, ℤ, pos, negsuc}

-- strings.Contains
abbrev pub contains : String → String → Bool
contains s t = elim (find? s t) [ none ↦ false | some i ↦ true ]

-- The character of the second text at the place where the first has `c`; `c` itself if it has none.
unfoldable pub translate : String → String → Char → Char
translate (String.◌∷◌ a s) (String.◌∷◌ b t) c =
    let other = translate s t c in if nat_eq (code a) (code c) then b else other
translate _ _ c = c

abbrev upper_case : String
upper_case = "ABCDEFGHIJKLMNOPQRSTUVWXYZ"

abbrev lower_case : String
lower_case = "abcdefghijklmnopqrstuvwxyz"

unfoldable pub map_text : (Char → Char) → String → String
map_text f String.[] = String.[]
map_text f (String.◌∷◌ c s) = String.◌∷◌ (f c) (map_text f s)

unfoldable pub lower : (Char → Char) → Char → Char
unfolding translate
lower lower_rune c = if ltb (code c) 128 then translate upper_case lower_case c else lower_rune c

-- strings.ToLower, given the lower case of the characters outside ASCII
unfoldable pub to_lower : (Char → Char) → String → String
unfolding map_text lower
to_lower lower_rune = map_text (lower lower_rune)

-- strings.ReplaceAll(s, "_", "-")
unfoldable pub underscores_to_dashes : String → String
unfolding map_text translate
underscores_to_dashes = map_text (translate "_" "-")

-- unicode.IsSpace
unfoldable pub is_space : ℕ → Bool
is_space c =
    leb 9 c && leb c 13
    || nat_eq c 32
    || nat_eq c 0x85
    || nat_eq c 0xa0
    || nat_eq c 0x1680
    || leb 0x2000 c && leb c 0x200a
    || nat_eq c 0x2028
    || nat_eq c 0x2029
    || nat_eq c 0x202f
    || nat_eq c 0x205f
    || nat_eq c 0x3000

unfoldable pub trim_left : String → String
trim_left String.[] = String.[]
trim_left (String.◌∷◌ c s) =
    let shorter = trim_left s in if is_space (code c) then shorter else String.◌∷◌ c s

-- `c` in front of a text that is trimmed at its end
unfoldable pub keep_char : Char → String → String
keep_char c String.[] = if is_space (code c) then String.[] else String.◌∷◌ c String.[]
keep_char c s = String.◌∷◌ c s

unfoldable pub trim_right : String → String
trim_right String.[] = String.[]
trim_right (String.◌∷◌ c s) = keep_char c (trim_right s)

-- strings.TrimSpace
unfoldable pub trim_space : String → String
unfolding trim_left trim_right keep_char is_space
trim_space s = trim_right (trim_left s)

-- The character of a digit.
unfoldable pub digit : ℕ → String → Char
digit n String.[] = "?"
digit zero (String.◌∷◌ c s) = c
digit (suc n) (String.◌∷◌ c s) = digit n s

-- The fuel `n + 1` is enough: a number above 9 has fewer than `n` digits.
unfoldable pub show_from : ℕ → ℕ → String → String
unfolding digit
show_from zero n s = s
show_from (suc fuel) n s =
    let longer = show_from fuel (n / 10) (String.◌∷◌ (digit (n % 10) "0123456789") s) in
    if ltb n 10 then String.◌∷◌ (digit n "0123456789") s else longer

-- fmt.Sprintf("%d", n)
unfoldable pub show_int : ℤ → String
unfolding show_from
show_int (pos n) = show_from (suc n) n ""
show_int (negsuc n) = "-" <> show_from (suc (suc n)) (suc n) ""

-- net.JoinHostPort
unfoldable pub join_host_port : String → String → String
join_host_port host port =
    if contains host ":" then "[" <> host <> "]:" <> port else host <> ":" <> port

-- The UTF-8 bytes of a character.
unfoldable pub utf8 : ℕ → Bytes
utf8 c =
    if ltb c 0x80
    then c ∷ []
    else if ltb c 0x800
    then (0xc0 + c / 64) ∷ (0x80 + c % 64) ∷ []
    else if ltb c 0x10000
    then (0xe0 + c / 4096) ∷ (0x80 + c / 64 % 64) ∷ (0x80 + c % 64) ∷ []
    else (0xf0 + c / 262144) ∷ (0x80 + c / 4096 % 64) ∷ (0x80 + c / 64 % 64) ∷ (0x80 + c % 64) ∷ []

-- []byte(s)
unfoldable pub to_bytes : String → Bytes
unfolding utf8
to_bytes String.[] = []
to_bytes (String.◌∷◌ c s) = utf8 (code c) ++ to_bytes s
