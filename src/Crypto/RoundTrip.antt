-- ===== src/Crypto/RoundTrip.antt =====
-- A kubeconfig that was encrypted is decrypted to itself.
use tark.Common.{
  ℕ, some, List, [], ◌∷◌, ◌++◌, ◌≡◌, refl, ap, sym, length, take, drop, length-append, All,
  All-append, arith, ok, Result-cases, inl, inr,
}
use tark.Models.{Bytes}
use tark.Crypto.{Cipher, encrypt, decrypt, decode_and_open, open_sealed, opened}
use tark.Crypto.Base64.{IsByte, encode, decode-encode}
use tark.System.Env.{Env, Aead}
use tark.System.Act.{World, ◌>>=◌, pure, asks, call, check, branch}

-- What AES-GCM and the random source promise: Open undoes Seal under the same nonce, bytes are sealed
-- as bytes, and as many random bytes come as were asked for.
pub record IsSound (e : Env) (aead : Aead) : Type 0 where
  pub opens :
      (nonce text : Bytes)
      → length nonce ≡ aead.nonce_size
      → aead.unseal nonce (aead.seal nonce text) ≡ some text
  pub seals_bytes :
      (nonce text : Bytes) → All IsByte nonce → All IsByte text → All IsByte (aead.seal nonce text)
  pub draws :
      (moment count : ℕ) (bs : Bytes)
      → e.random moment count ≡ ok bs
      → (length bs ≡ count) × All IsByte bs

module _ {ℓ} {A : Type ℓ} where
  take-append : (xs ys : List A) → take (length xs) (xs ++ ys) ≡ xs
  take-append [] ys = refl
  take-append (x ∷ xs) ys = ap (λ zs. x ∷ zs) (take-append xs ys)

  drop-append : (xs ys : List A) → drop (length xs) (xs ++ ys) ≡ ys
  drop-append [] ys = refl
  drop-append (x ∷ xs) ys = drop-append xs ys

module _ (e : Env) (c : Cipher) (text : Bytes) where
  open_sealed-seal :
      (nonce : Bytes)
      → IsSound e (e.aead c.key)
      → length nonce ≡ (e.aead c.key).nonce_size
      → open_sealed (e.aead c.key) (nonce ++ (e.aead c.key).seal nonce text) ≡ ok text
  unfolding open_sealed opened
  open_sealed-seal nonce sound n =
      rw
        (
          length-append nonce ((e.aead c.key).seal nonce text),
          sym n,
          take-append nonce ((e.aead c.key).seal nonce text),
          drop-append nonce ((e.aead c.key).seal nonce text),
          sound.opens nonce text n,
        )
        (ground arith)

  -- What `encrypt` returns is the encoding of a nonce and of what is sealed under it.
  encrypt-sealed :
      (w : World) (stored : Bytes)
      → IsSound e (e.aead c.key)
      → (encrypt c text e w).0 ≡ ok stored
      → (nonce : Bytes) × (length nonce ≡ (e.aead c.key).nonce_size)
        × All IsByte nonce
        × (stored ≡ encode (nonce ++ (e.aead c.key).seal nonce text))
  unfolding encrypt ◌>>=◌ pure asks call check branch
  encrypt-sealed w stored sound h =
      elim (Result-cases (e.random w.moment (e.aead c.key).nonce_size)) [
        | inl (nonce, drawn) ↦
            let (n, bytes) = sound.draws w.moment _ nonce drawn in
            (nonce, n, bytes, cc (rw drawn at h))
        | inr (x, refused) ↦ cc (rw refused at h)
      ]

  -- While AES-GCM and the random source keep their promises, what `encrypt` returns of a text of bytes
  -- is decrypted to that text by the same cipher, at any later moment, and decrypting changes nothing.
  pub decrypt-encrypt :
      (w w' : World) (stored : Bytes)
      → All IsByte text
      → IsSound e (e.aead c.key)
      → (encrypt c text e w).0 ≡ ok stored
      → decrypt c stored e w' ≡ (ok text, w')
  unfolding decrypt decode_and_open asks
  decrypt-encrypt w w' stored bytes sound h =
      let (nonce, n, nonce_bytes, eq) = encrypt-sealed w stored sound h in
      rw
        (
          eq,
          decode-encode _ (
              All-append IsByte nonce _ nonce_bytes
                (sound.seals_bytes nonce text nonce_bytes bytes)),
          open_sealed-seal nonce sound n,
        )
        refl
