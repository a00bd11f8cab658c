-- ===== src/Text/Numbers/Digits.antt =====
-- What is written of a number is read back.
use Prim.Native.Char.{Char, code}
use Prim.Native.String.{String, count}
use native.Mathlib.Nat.{pow-suc}
use text.Mathlib.TextLemmas.{length-cons, cons-ne-nil}
use tark.Common.{
  ℕ, zero, suc, ◌+◌, ◌*◌, ◌/◌, ◌%◌, ◌^◌, ◌<◌, Bool, true, false, ◌&&◌, Option, none, some, ltb,
  ◌==◌, ◌≡◌, refl, arith, nat_eq, not, Bool-cases, inl, inr, ◌∙◌, ap, sym, eq_iff,
}
use tark.Models.{pos}
use tark.Text.{digit, show_from, show_int}
use tark.Text.Numbers.{
  decimal_value, hex_value, read_digits, show_hex, atoi, read_decimal, to_positive,
}

-- A test of all numbers below a bound.
all_below : ℕ → (ℕ → Bool) → Bool
all_below zero p = true
all_below (suc n) p = p n && all_below n p

all_below-at : (n : ℕ) (p : ℕ → Bool) (i : ℕ) → all_below n p ≡ true → i < n → p i ≡ true
unfolding all_below
all_below-at zero p i h less = elim less [ ]
all_below-at (suc n) p i h less = elim (Bool-cases (nat_eq i n)) [
  | inl same ↦ ground (arith, h, same)
  | inr other ↦ all_below-at n p i (ground (arith, h)) (ground (arith, other, less))
]

is_value : Option ℕ → ℕ → Bool
is_value none n = false
is_value (some m) n = nat_eq m n

is_value-eq : (o : Option ℕ) (n : ℕ) → is_value o n ≡ true → o ≡ some n
unfolding is_value
is_value-eq none n h = cc
is_value-eq (some m) n h = ap some (ground (arith, h))

abbrev hex_value_of : ℕ → Bool
hex_value_of d = is_value (hex_value (code (digit d "0123456789abcdef"))) d

all_hex : all_below 16 hex_value_of ≡ true
unfolding all_below is_value digit hex_value
all_hex = refl

hex_value-digit : (d : ℕ) → d < 16 → hex_value (code (digit d "0123456789abcdef")) ≡ some d
hex_value-digit d less = is_value-eq _ d (all_below-at 16 hex_value_of d all_hex less)

abbrev decimal_value_of : ℕ → Bool
decimal_value_of d = is_value (decimal_value (code (digit d "0123456789"))) d

all_decimal : all_below 10 decimal_value_of ≡ true
unfolding all_below is_value digit decimal_value
all_decimal = refl

decimal_value-digit : (d : ℕ) → d < 10 → decimal_value (code (digit d "0123456789")) ≡ some d
decimal_value-digit d less = is_value-eq _ d (all_below-at 10 decimal_value_of d all_decimal less)

read_digits-cons :
    (value : ℕ → Option ℕ) (base n d : ℕ) (c : Char) (s : String)
    → value (code c) ≡ some d
    → read_digits value base n (String.◌∷◌ c s) ≡ read_digits value base (n * base + d) s
unfolding read_digits
read_digits-cons value base n d c s h = rw (h, read_digits) refl

power : (k : ℕ) → 16 ^ suc k ≡ 16 ^ k * 16
power k = pow-suc 16 k

place : (k n a : ℕ) → (a * 16 ^ k + n / 16) * 16 + n % 16 ≡ a * 16 ^ suc k + n
place k n a = rw (power k) (grind arith)

-- The digits of a number below 16 ^ k are read back on from any number.
pub read_digits-show_hex :
    (k n a : ℕ) (s : String)
    → n < 16 ^ k
    → read_digits hex_value 16 a (show_hex k n s) ≡ read_digits hex_value 16 (a * 16 ^ k + n) s
unfolding show_hex
read_digits-show_hex zero n a s h = ap (λ m. read_digits hex_value 16 m s) (omega (arith, h))
read_digits-show_hex (suc k) n a s h =
    read_digits-show_hex k (n / 16) a _ (omega (arith, h, power k))
    ∙ read_digits-cons hex_value 16 (a * 16 ^ k + n / 16) (n % 16) _ s
        (hex_value-digit (n % 16) (omega arith))
    ∙ ap (λ m. read_digits hex_value 16 m s) (place k n a)

pub count-show_hex : (k n : ℕ) (s : String) → count (show_hex k n s) ≡ k + count s
unfolding show_hex
count-show_hex zero n s = omega arith
count-show_hex (suc k) n s =
    count-show_hex k (n / 16) _ ∙ omega (arith, length-cons (digit (n % 16) "0123456789abcdef") s)

-- The digits that are written of a number are read back.
read_digits-show_from :
    (fuel n : ℕ) (s : String)
    → n < fuel
    → read_digits decimal_value 10 0 (show_from fuel n s) ≡ read_digits decimal_value 10 n s
unfolding show_from
read_digits-show_from (suc fuel) n s h = elim (Bool-cases (ltb n 10)) [
  | inl small ↦ rw small (
      read_digits-cons decimal_value 10 0 n _ s (decimal_value-digit n (ground (arith, small)))
      ∙ ap (λ m. read_digits decimal_value 10 m s) (omega arith))
  | inr large ↦ rw large (
      read_digits-show_from fuel (n / 10) _ (ground (arith, large, h))
      ∙ read_digits-cons decimal_value 10 (n / 10) (n % 10) _ s
          (decimal_value-digit (n % 10) (omega arith))
      ∙ ap (λ m. read_digits decimal_value 10 m s) (omega arith))
]
read_digits-show_from zero n s h = elim h [ ]

-- What is written of a number begins with a digit.
abbrev Digital : String → Type 0
Digital t = (d : ℕ) × (rest : String) × (d < 10) × (t ≡ String.◌∷◌ (digit d "0123456789") rest)

show_from-Digital : (fuel n : ℕ) (s : String) → n < fuel → Digital (show_from fuel n s)
unfolding show_from
show_from-Digital zero n s h = elim h [ ]
show_from-Digital (suc fuel) n s h = elim (Bool-cases (ltb n 10)) [
  | inl small ↦ (n, s, ground (arith, small), rw small refl)
  | inr large ↦ rw large (show_from-Digital fuel (n / 10) _ (ground (arith, large, h)))
]

abbrev not_a_sign : ℕ → Bool
not_a_sign d = let c = code (digit d "0123456789") in not (nat_eq c 43) && not (nat_eq c 45)

no_signs : all_below 10 not_a_sign ≡ true
unfolding all_below digit
no_signs = refl

atoi-digit :
    (d : ℕ) (rest : String)
    → d < 10
    → atoi (String.◌∷◌ (digit d "0123456789") rest)
      ≡ to_positive (read_digits decimal_value 10 0 (String.◌∷◌ (digit d "0123456789") rest))
unfolding atoi read_decimal
atoi-digit d rest less = let plain = all_below-at 10 not_a_sign d no_signs less in ground arith

atoi-Digital : (t : String) → Digital t → atoi t ≡ to_positive (read_digits decimal_value 10 0 t)
atoi-Digital t (d, rest, less, same) = rw same (atoi-digit d rest less)

to_positive-fits : (n : ℕ) → n < 2 ^ 63 → to_positive (some n) ≡ some (pos n)
unfolding to_positive
to_positive-fits n fits = ground (arith, fits)

-- What is written of a number of an int64 that is not negative is read back.
pub atoi-show_int : (n : ℕ) → n < 2 ^ 63 → atoi (show_int (pos n)) ≡ some (pos n)
unfolding show_int read_digits
atoi-show_int n fits =
    atoi-Digital _ (show_from-Digital (suc n) n "" (omega arith))
    ∙ ap to_positive (read_digits-show_from (suc n) n "" (omega arith))
    ∙ to_positive-fits n fits

Digital-ne-empty : (t : String) → Digital t → (t == "") ≡ false
Digital-ne-empty t (d, rest, less, same) = elim (Bool-cases (t == "")) [
  | inl blank ↦ elim (cons-ne-nil _ rest (sym same ∙ (eq_iff t "").0 blank)) [ ]
  | inr given ↦ given
]

pub show_int-ne-empty : (n : ℕ) → (show_int (pos n) == "") ≡ false
unfolding show_int
show_int-ne-empty n = Digital-ne-empty _ (show_from-Digital (suc n) n "" (omega arith))
