-- ===== src/Config/Start.antt =====
-- What the worker starts with.
use Prim.Native.String.{String}
use tark.Common.{
  ℕ, suc, ◌<◌, ◌^◌, true, false, Option, none, some, [], ◌∷◌, length, nat_eq, ◌==◌, Result, ok, ◌≡◌,
  ◌⊎◌, refl, inl, inr, arith,
}
use tark.Models.{Bytes, ℤ, pos}
use tark.Text.{show_int}
use tark.Text.Numbers.Digits.{atoi-show_int, show_int-ne-empty}
use tark.Crypto.{Cipher, new_cipher}
use tark.Config.{Config, loaded, load}
use tark.Config.Production.{HasKey, load-WellFormed}
use tark.Config.Worker.{
  positive_or, parsed_or, parse_concurrency, server_concurrency, just_cipher, worker_cipher,
}
use tark.System.Env.{Env}

-- There is a cipher with the key that was loaded, or none where there is no key, which is never in
-- production.
pub record Encrypts (env : String) (key : Bytes) (r : Result (Option Cipher)) : Type 0 where
  pub outcome :
      (r ≡ ok (some (record { key = key }))) ⊎ ((r ≡ ok none) × ((env == "production") ≡ false))

worker_cipher-keyed :
    (key : Bytes) → length key ≡ 32 → worker_cipher key ≡ ok (some (record { key = key }))
unfolding worker_cipher just_cipher new_cipher
worker_cipher-keyed [] e = ground (arith, e)
worker_cipher-keyed (b ∷ key) e =
    let same : nat_eq (length (b ∷ key)) 32 ≡ true = ground (arith, e) in rw same refl

worker_cipher-Encrypts :
    (e : Env) (env : String) (key : Bytes) → HasKey e env key → Encrypts env key (worker_cipher key)
unfolding worker_cipher
worker_cipher-Encrypts e env key h = elim (h.of_32) [
  | inl (many, written) ↦ record { outcome = inl (worker_cipher-keyed key many) }
  | inr absent ↦ record { outcome = inr (rw absent.0 refl, absent.1) }
]

-- With a configuration that is loaded, making the worker's cipher never fails, and in production there is
-- one.
pub load-Encrypts :
    (e : Env) (cfg : Config)
    → load e ≡ loaded cfg
    → Encrypts cfg.env cfg.kubeconfig_key (worker_cipher cfg.kubeconfig_key)
load-Encrypts e cfg done =
    worker_cipher-Encrypts e cfg.env cfg.kubeconfig_key (load-WellFormed e cfg done).has_key

parse_concurrency-written :
    (n : ℕ) (fallback : ℤ)
    → n < 2 ^ 63
    → parse_concurrency (show_int (pos n)) fallback ≡ positive_or fallback (pos n)
unfolding parse_concurrency parsed_or
parse_concurrency-written n fallback fits = rw (show_int-ne-empty n, atoi-show_int n fits) refl

-- A positive number of an int64, written out as the worker's concurrency, is the server's.
pub server_concurrency-parse_concurrency :
    (n : ℕ) (fallback : ℤ)
    → suc n < 2 ^ 63
    → server_concurrency (parse_concurrency (show_int (pos (suc n))) fallback) ≡ pos (suc n)
unfolding server_concurrency positive_or
server_concurrency-parse_concurrency n fallback fits =
    rw (parse_concurrency-written (suc n) fallback fits) refl
