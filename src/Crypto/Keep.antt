-- ===== src/Crypto/Keep.antt =====
-- Encryption leaves the tables alone.
use tark.Models.{Bytes}
use tark.Store.{Database}
use tark.Crypto.{Cipher, encrypt, decrypt}
use tark.System.Keeps.{Keeps, keeps_rules}

module _ {P : Database → Type 0} (c : Cipher) (text : Bytes) where
  pub encrypt-Keeps : Keeps P (encrypt c text)
  unfolding encrypt
  encrypt-Keeps = search keeps_rules

  pub decrypt-Keeps : Keeps P (decrypt c text)
  unfolding decrypt
  decrypt-Keeps = search keeps_rules
