-- ===== src/Text/Numbers.antt =====
-- What the program uses of Go's strconv.Atoi, encoding/hex and fmt's %08x.
pub mod Digits
pub mod Hex
use Prim.Native.Char.{code}
use Prim.Native.String.{String}
use tark.Common.{
  ℕ, zero, suc, ◌+◌, ◌-◌, ◌*◌, ◌/◌, ◌%◌, ◌^◌, Bool, true, false, ◌&&◌, Option, none, some, List, [],
  ◌∷◌, ltb, leb, nat_eq, if◌then◌else◌,
}
use tark.Models.{Bytes, ℤ, pos, negsuc}
use tark.Text.{digit}

-- A decimal digit, by its code.
unfoldable pub decimal_value : ℕ → Option ℕ
decimal_value c = if leb 48 c && leb c 57 then some (c - 48) else none

-- A hexadecimal digit, by its code.
unfoldable pub hex_value : ℕ → Option ℕ
hex_value c =
    if leb 48 c && leb c 57
    then some (c - 48)
    else if leb 97 c && leb c 102
    then some (c - 87)
    else if leb 65 c && leb c 70
    then some (c - 55)
    else none

-- A text of digits, read from the left in a base, on from a number.
unfoldable pub read_digits : (ℕ → Option ℕ) → ℕ → ℕ → String → Option ℕ
read_digits value base n String.[] = some n
read_digits value base n (String.◌∷◌ c s) = elim (value (code c)) [
  | none ↦ none
  | some d ↦ read_digits value base (n * base + d) s
]

-- At least one digit.
unfoldable pub read_decimal : String → Option ℕ
unfolding read_digits
read_decimal String.[] = none
read_decimal s = read_digits decimal_value 10 0 s

-- The numbers of an int64.
unfoldable pub to_positive : Option ℕ → Option ℤ
to_positive none = none
to_positive (some n) = if ltb n (2 ^ 63) then some (pos n) else none

unfoldable pub to_negative : Option ℕ → Option ℤ
to_negative none = none
to_negative (some zero) = some (pos 0)
to_negative (some (suc n)) = if ltb n (2 ^ 63) then some (negsuc n) else none

-- strconv.Atoi; none is its error.
unfoldable pub atoi : String → Option ℤ
unfolding read_decimal to_positive to_negative
atoi String.[] = none
atoi (String.◌∷◌ c s) =
    if nat_eq (code c) 43
    then to_positive (read_decimal s)
    else if nat_eq (code c) 45
    then to_negative (read_decimal s)
    else to_positive (read_decimal (String.◌∷◌ c s))

-- The last digits of a number in base 16, as many as are asked for, in front of a text.
unfoldable pub show_hex : ℕ → ℕ → String → String
unfolding digit
show_hex zero n s = s
show_hex (suc k) n s = show_hex k (n / 16) (String.◌∷◌ (digit (n % 16) "0123456789abcdef") s)

-- One byte more in front of those that are decoded.
unfoldable pub decoded : Option ℕ → Option ℕ → Bytes × Bool → Bytes × Bool
decoded (some x) (some y) (bs, fine) = ((x * 16 + y) ∷ bs, fine)
decoded _ _ rest = ([], false)

-- hex.DecodeString: the bytes before the first error, and whether there is none.
unfoldable pub decode_hex : Bytes → Bytes × Bool
unfolding decoded
decode_hex [] = ([], true)
decode_hex (a ∷ []) = ([], false)
decode_hex (a ∷ b ∷ text) = decoded (hex_value a) (hex_value b) (decode_hex text)
