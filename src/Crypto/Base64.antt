-- ===== src/Crypto/Base64.antt =====
-- encoding/base64's StdEncoding, which aes.go stores its ciphertexts by: the padded alphabet, and
-- a decoder that skips line breaks and does not look at the unused bits of the last symbol.
use mathlib.Core.Option
use tark.Common.{
  ℕ, ◌+◌, ◌-◌, ◌*◌, ◌/◌, ◌%◌, ◌<◌, Bool, false, ◌&&◌, ◌||◌, Option, none, some, [], ◌∷◌, ◌≡◌, refl,
  arith, All, ltb, leb, nat_eq, if◌then◌else◌,
}
use tark.Models.{Bytes}

symbol : ℕ → ℕ
symbol n =
    if ltb n 26
    then n + 65
    else if ltb n 52
    then n + 71
    else if ltb n 62
    then n - 52 + 48
    else if nat_eq n 62
    then b'+'
    else b'/'

pad : ℕ
pad = b'='

unfoldable pub encode : Bytes → Bytes
unfolding symbol pad
encode [] = []
encode (a ∷ []) = symbol (a / 4) ∷ symbol (a % 4 * 16) ∷ pad ∷ pad ∷ []
encode (a ∷ b ∷ []) = symbol (a / 4) ∷ symbol (a % 4 * 16 + b / 16) ∷ symbol (b % 16 * 4) ∷ pad ∷ []
encode (a ∷ b ∷ c ∷ rest) =
    symbol (a / 4)
    ∷ symbol (a % 4 * 16 + b / 16)
    ∷ symbol (b % 16 * 4 + c / 64)
    ∷ symbol (c % 64)
    ∷ encode rest

-- The number of a symbol; 64 if it is none.
value : ℕ → ℕ
value s =
    if leb 65 s && leb s 90
    then s - 65
    else if leb 97 s && leb s 122
    then s - 71
    else if leb 48 s && leb s 57
    then s + 52 - 48
    else if nat_eq s b'+'
    then 62
    else if nat_eq s b'/'
    then 63
    else 64

is_symbol : ℕ → Bool
unfolding value
is_symbol s = ltb (value s) 64

skip_newlines : Bytes → Bytes
skip_newlines [] = []
skip_newlines (c ∷ cs) =
    let rest = skip_newlines cs in if nat_eq c 10 || nat_eq c 13 then rest else c ∷ rest

-- The last group of four symbols, where padding may stand.
last_group : ℕ → ℕ → ℕ → ℕ → Option Bytes
unfolding value is_symbol pad
last_group p q r s =
    if is_symbol p && is_symbol q
    then (if is_symbol r && is_symbol s
        then some (
            (value p * 4 + value q / 16)
            ∷ (value q % 16 * 16 + value r / 4)
            ∷ (value r % 4 * 64 + value s)
            ∷ [])
        else if is_symbol r && nat_eq s pad
        then some ((value p * 4 + value q / 16) ∷ (value q % 16 * 16 + value r / 4) ∷ [])
        else if nat_eq r pad && nat_eq s pad
        then some ((value p * 4 + value q / 16) ∷ [])
        else none)
    else none

prepend : ℕ → ℕ → ℕ → ℕ → Option Bytes → Option Bytes
unfolding value is_symbol
prepend p q r s none = none
prepend p q r s (some rest) =
    if is_symbol p && is_symbol q && is_symbol r && is_symbol s
    then some (
        (value p * 4 + value q / 16)
        ∷ (value q % 16 * 16 + value r / 4)
        ∷ (value r % 4 * 64 + value s)
        ∷ rest)
    else none

groups : Bytes → Option Bytes
unfolding last_group prepend
groups [] = some []
groups (p ∷ q ∷ r ∷ s ∷ []) = last_group p q r s
groups (p ∷ q ∷ r ∷ s ∷ rest) = prepend p q r s (groups rest)
groups _ = none

unfoldable pub decode : Bytes → Option Bytes
unfolding groups skip_newlines
decode text = groups (skip_newlines text)

-- A byte.
abbrev pub IsByte : ℕ → Type 0
IsByte b = b < 256

value-symbol : (n : ℕ) → n < 64 → value (symbol n) ≡ n
unfolding value symbol
value-symbol n h = ground arith

symbol-ne-newline : (n : ℕ) → n < 64 → (nat_eq (symbol n) 10 || nat_eq (symbol n) 13) ≡ false
unfolding symbol
symbol-ne-newline n h = ground arith

-- A symbol is kept, whatever follows.
skip_newlines-symbol :
    (n : ℕ) (rest : Bytes)
    → n < 64
    → skip_newlines (symbol n ∷ rest) ≡ symbol n ∷ skip_newlines rest
unfolding skip_newlines
skip_newlines-symbol n rest h = rw (symbol-ne-newline n h)

skip_newlines-encode : (bs : Bytes) → All IsByte bs → skip_newlines (encode bs) ≡ encode bs
unfolding encode
skip_newlines-encode [] h = unfold skip_newlines in refl
skip_newlines-encode (a ∷ []) h =
    rw
      (
        skip_newlines-symbol (a / 4) _ (omega arith),
        skip_newlines-symbol (a % 4 * 16) _ (omega arith),
      )
      (unfold skip_newlines in refl)
skip_newlines-encode (a ∷ b ∷ []) h =
    rw
      (
        skip_newlines-symbol (a / 4) _ (omega arith),
        skip_newlines-symbol (a % 4 * 16 + b / 16) _ (omega arith),
        skip_newlines-symbol (b % 16 * 4) _ (omega arith),
      )
      (unfold skip_newlines in refl)
skip_newlines-encode (a ∷ b ∷ c ∷ rest) h = rw (
  skip_newlines-symbol (a / 4) _ (omega arith),
  skip_newlines-symbol (a % 4 * 16 + b / 16) _ (omega arith),
  skip_newlines-symbol (b % 16 * 4 + c / 64) _ (omega arith),
  skip_newlines-symbol (c % 64) _ (omega arith),
  skip_newlines-encode rest h.1.1.1,
)

-- What four symbols add to the bytes that follow.
abbrev three_bytes : ℕ → ℕ → ℕ → ℕ → Bytes → Bytes
three_bytes w x y z rest = (w * 4 + x / 16) ∷ (x % 16 * 16 + y / 4) ∷ (y % 4 * 64 + z) ∷ rest

module _ (w x y z : ℕ) (hw : w < 64) (hx : x < 64) (hy : y < 64) (hz : z < 64) where
  prepend-symbols :
      (o : Option Bytes)
      → prepend (symbol w) (symbol x) (symbol y) (symbol z) o ≡ Option.map (three_bytes w x y z) o
  unfolding prepend
  prepend-symbols none = refl
  prepend-symbols (some rest) =
      rw (value-symbol w hw, value-symbol x hx, value-symbol y hy, value-symbol z hz) (ground arith)

  groups-symbols :
      (t : Bytes)
      → groups (symbol w ∷ symbol x ∷ symbol y ∷ symbol z ∷ t)
        ≡ Option.map (three_bytes w x y z) (groups t)
  unfolding groups
  groups-symbols [] =
      rw (value-symbol w hw, value-symbol x hx, value-symbol y hy, value-symbol z hz) (ground arith)
  groups-symbols (c ∷ cs) = prepend-symbols (groups (c ∷ cs))

groups-symbols_two :
    (w x : ℕ)
    → w < 64
    → x < 64
    → groups (symbol w ∷ symbol x ∷ pad ∷ pad ∷ []) ≡ some ((w * 4 + x / 16) ∷ [])
unfolding groups
groups-symbols_two w x hw hx = rw (value-symbol w hw, value-symbol x hx) (ground arith)

groups-symbols_three :
    (w x y : ℕ)
    → w < 64
    → x < 64
    → y < 64
    → groups (symbol w ∷ symbol x ∷ symbol y ∷ pad ∷ [])
      ≡ some ((w * 4 + x / 16) ∷ (x % 16 * 16 + y / 4) ∷ [])
unfolding groups
groups-symbols_three w x y hw hx hy =
    rw (value-symbol w hw, value-symbol x hx, value-symbol y hy) (ground arith)

groups-encode : (bs : Bytes) → All IsByte bs → groups (encode bs) ≡ some bs
unfolding encode
groups-encode [] h = unfold groups in refl
groups-encode (a ∷ []) h =
    rw (groups-symbols_two (a / 4) (a % 4 * 16) (omega arith) (omega arith)) (ground arith)
groups-encode (a ∷ b ∷ []) h =
    rw
      (groups-symbols_three (a / 4) (a % 4 * 16 + b / 16) (b % 16 * 4) (omega arith) (omega arith)
        (omega arith))
      (ground arith)
groups-encode (a ∷ b ∷ c ∷ rest) h =
    rw
      (
        groups-symbols (a / 4) (a % 4 * 16 + b / 16) (b % 16 * 4 + c / 64) (c % 64) (omega arith)
            (omega arith) (omega arith) (omega arith) (encode rest),
        groups-encode rest h.1.1.1,
      )
      (ground arith)

-- Decoding what was encoded gives the bytes back.
pub decode-encode : (bs : Bytes) → All IsByte bs → decode (encode bs) ≡ some bs
unfolding decode
decode-encode bs h = rw (skip_newlines-encode bs h) (groups-encode bs h)
