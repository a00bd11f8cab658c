-- ===== src/Crypto.antt =====
-- internal/crypto/aes.go: kubeconfigs at rest, base64(nonce || ciphertext).
pub mod Base64
pub mod Keep
pub mod RoundTrip
use tark.Common.{
  ℕ, Bool, Option, none, some, List, ◌++◌, length, take, drop, nat_eq, ltb, not, Error, Result, ok,
  err, ◌<>◌, if◌then◌else◌,
}
use tark.Models.{Bytes, ℤ, pos}
use tark.Text.{show_int}
use tark.Crypto.Base64.{encode, decode}
use tark.System.Env.{Env, Aead}
use tark.System.Act.{Act, pure, asks, call, check, ◌>>=◌}

-- The key of an AES-256-GCM.
pub record Cipher : Type 0 where
  pub key : Bytes

-- aes.NewCipher and cipher.NewGCM accept every key of 32 bytes.
unfoldable pub new_cipher : Bytes → Result Cipher
new_cipher key =
    if nat_eq (length key) 32
    then ok (record { key = key })
    else err ("crypto: key must be exactly 32 bytes, got " <> show_int (pos (length key)))

unfoldable pub encrypt : Cipher → Bytes → Act (Result Bytes)
encrypt c plaintext = do
  aead ← asks (λ e. e.aead c.key)
  check (call (λ e n. e.random n aead.nonce_size))
      (λ x. pure (err ("crypto: generate nonce: " <> x)))
      λ nonce. pure (ok (encode (nonce ++ aead.seal nonce plaintext)))

-- what `Open` returns
opened : Option Bytes → Error → Result Bytes
opened none x = err ("crypto: decrypt failed (wrong key or corrupted data): " <> x)
opened (some plaintext) x = ok plaintext

-- what is decoded is split after the nonce
open_sealed : Aead → Bytes → Result Bytes
unfolding opened
open_sealed aead sealed =
    if ltb (length sealed) aead.nonce_size
    then err "crypto: ciphertext too short"
    else opened (aead.unseal (take aead.nonce_size sealed) (drop aead.nonce_size sealed))
        "cipher: message authentication failed"

decode_and_open : Env → Cipher → Bytes → Option Bytes → Result Bytes
unfolding open_sealed
decode_and_open e c encoded none = err ("crypto: base64 decode: " <> e.base64_error encoded)
decode_and_open e c encoded (some sealed) = open_sealed (e.aead c.key) sealed

pub decrypt : Cipher → Bytes → Act (Result Bytes)
unfolding decode_and_open
decrypt c encoded = asks (λ e. decode_and_open e c encoded (decode encoded))
