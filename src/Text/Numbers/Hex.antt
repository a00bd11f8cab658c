-- ===== src/Text/Numbers/Hex.antt =====
-- What hex.DecodeString accepts.
use tark.Common.{
  ℕ, ◌*◌, ◌<◌, Bool, true, Option, none, some, [], ◌∷◌, All, length, ◌≡◌, refl, arith,
}
use tark.Models.{Bytes}
use tark.Text.Numbers.{hex_value, decoded, decode_hex}
use tark.Crypto.Base64.{IsByte}

hex_value-lt : (c d : ℕ) → hex_value c ≡ some d → d < 16
unfolding hex_value
hex_value-lt c d e = ground (arith, e)

-- The bytes are half as many as the characters, where there is no error.
pub record IsHexOf (text key : Bytes) : Type 0 where
  pub twice : length text ≡ 2 * length key
  pub bytes : All IsByte key

record Decodes (text : Bytes) (r : Bytes × Bool) : Type 0 where
  at : r.1 ≡ true → IsHexOf text r.0

decoded-Decodes :
    (a b : ℕ) (text : Bytes) (x y : Option ℕ) (r : Bytes × Bool)
    → ((m : ℕ) → x ≡ some m → m < 16)
    → ((n : ℕ) → y ≡ some n → n < 16)
    → Decodes text r
    → Decodes (a ∷ b ∷ text) (decoded x y r)
unfolding decoded
decoded-Decodes a b text (some m) (some n) (bs, fine) hx hy h = record {
  at = λ same.
      let rest = h.at same in
      let low = hx m refl in
      let high = hy n refl in
      record { twice = omega (arith, rest.twice); bytes = (omega (arith, low, high), rest.bytes) };
}
decoded-Decodes a b text none y r hx hy h = record { at = λ same. cc }
decoded-Decodes a b text (some m) none r hx hy h = record { at = λ same. cc }

decode_hex-Decodes : (text : Bytes) → Decodes text (decode_hex text)
unfolding decode_hex
decode_hex-Decodes [] = record { at = λ same. record { twice = refl; bytes = tt } }
decode_hex-Decodes (a ∷ []) = record { at = λ same. cc }
decode_hex-Decodes (a ∷ b ∷ text) =
    decoded-Decodes a b text (hex_value a) (hex_value b) (decode_hex text) (λ m. hex_value-lt a m)
      (λ n. hex_value-lt b n) (decode_hex-Decodes text)

pub decode_hex-IsHexOf :
    (text : Bytes) → (decode_hex text).1 ≡ true → IsHexOf text (decode_hex text).0
decode_hex-IsHexOf text same = (decode_hex-Decodes text).at same
