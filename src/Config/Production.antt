-- ===== src/Config/Production.antt =====
-- What a configuration that is loaded has.
use mathlib.Core.Path.{subst}
use Prim.Native.String.{String}
use tark.Common.{
  Bool, true, false, [], All, length, nat_eq, ◌==◌, ◌≡◌, ◌≢◌, ◌⊎◌, refl, Bool-cases, inl, inr,
  arith,
}
use tark.Models.{Bytes}
use tark.Text.{to_bytes}
use tark.Text.Numbers.Hex.{IsHexOf, decode_hex-IsHexOf}
use tark.Config.{
  Config, Loaded, loaded, exited, env_or_default, require_env, checked_key, load_kubeconfig_key,
  or_exit, environment_name, database_url, redis_addr, load,
}
use tark.Crypto.Base64.{IsByte}
use tark.System.Env.{Env}

ne-empty : (s : String) → (s == "") ≡ false → s ≢ ""
ne-empty s h same = cc (rw same at h)

-- Loading ends the process, or what it returns has the property.
abbrev pub Gives {ℓ} : {A : Type 0} → (A → Type ℓ) → Loaded A → Type ℓ
Gives P (loaded a) = P a
Gives P (exited message) = Unit

-- An encryption key is of 32 bytes, read from a text of 64; without one, in development, nothing is
-- encrypted.
pub record HasKey (e : Env) (env : String) (key : Bytes) : Type 0 where
  pub of_32 :
      ((length key ≡ 32) × (length (to_bytes (e.getenv "KUBECONFIG_ENCRYPTION_KEY")) ≡ 64))
      ⊎ ((key ≡ []) × ((env == "production") ≡ false))
  pub bytes : All IsByte key

pub record WellFormed (e : Env) (cfg : Config) : Type 0 where
  pub has_port : cfg.port ≢ ""
  pub has_namespace : cfg.namespace ≢ ""
  pub has_database : cfg.database_url ≢ ""
  pub has_redis : cfg.redis_addr ≢ ""
  pub has_key : HasKey e cfg.env cfg.kubeconfig_key

Gives-or_exit :
    {A B : Type 0} (P : A → Type 0) (Q : B → Type 0) (r : Loaded A) (k : A → Loaded B)
    → Gives P r
    → ((a : A) → P a → Gives Q (k a))
    → Gives Q (or_exit r k)
unfolding or_exit
Gives-or_exit P Q (loaded a) k h hk = hk a h
Gives-or_exit P Q (exited message) k h hk = tt

env_or_default-ne-empty :
    (e : Env) (name fallback : String)
    → (fallback == "") ≡ false
    → env_or_default e name fallback ≢ ""
unfolding env_or_default
env_or_default-ne-empty e name fallback h = elim (Bool-cases (e.getenv name == "")) [
  | inl blank ↦ rw blank (ne-empty fallback h)
  | inr given ↦ rw given (ne-empty (e.getenv name) given)
]

require_env-ne-empty : (e : Env) (name : String) → Gives (λ s. s ≢ "") (require_env e name)
unfolding require_env
require_env-ne-empty e name = elim (Bool-cases (e.getenv name == "")) [
  | inl blank ↦ rw blank tt
  | inr given ↦ rw given (ne-empty (e.getenv name) given)
]

database_url-ne-empty : (e : Env) (env : String) → Gives (λ s. s ≢ "") (database_url e env)
unfolding database_url
database_url-ne-empty e env = elim (Bool-cases (env == "production")) [
  | inl production ↦ rw production (require_env-ne-empty e "DATABASE_URL")
  | inr other ↦ rw other (env_or_default-ne-empty e "DATABASE_URL" _ refl)
]

redis_addr-ne-empty : (e : Env) (env : String) → Gives (λ s. s ≢ "") (redis_addr e env)
unfolding redis_addr
redis_addr-ne-empty e env = elim (Bool-cases (env == "production")) [
  | inl production ↦ rw production (require_env-ne-empty e "REDIS_ADDR")
  | inr other ↦ rw other (env_or_default-ne-empty e "REDIS_ADDR" _ refl)
]

checked_key-HasKey :
    (e : Env) (env : String) (key : Bytes) (fine : Bool)
    → (fine ≡ true → IsHexOf (to_bytes (e.getenv "KUBECONFIG_ENCRYPTION_KEY")) key)
    → Gives (HasKey e env) (checked_key (key, fine))
unfolding checked_key
checked_key-HasKey e env key false hex = tt
checked_key-HasKey e env key true hex = elim (Bool-cases (nat_eq (length key) 32)) [
  | inl same ↦
      let many : length key ≡ 32 = ground (arith, same) in
      rw same (record {
        of_32 = inl (many, omega (arith, many, (hex refl).twice));
        bytes = (hex refl).bytes;
      })
  | inr other ↦ rw other tt
]

load_kubeconfig_key-HasKey :
    (e : Env) (env : String) → Gives (HasKey e env) (load_kubeconfig_key e env)
unfolding load_kubeconfig_key
load_kubeconfig_key-HasKey e env = elim (Bool-cases (e.getenv "KUBECONFIG_ENCRYPTION_KEY" == "")) [
  | inl blank ↦ elim (Bool-cases (env == "production")) [
    | inl production ↦ rw (blank, production) tt
    | inr other ↦ rw (blank, other) (record { of_32 = inr (refl, other); bytes = tt })
  ]
  | inr given ↦ rw given (
      checked_key-HasKey e env _ _
        (decode_hex-IsHexOf (to_bytes (e.getenv "KUBECONFIG_ENCRYPTION_KEY"))))
]

load-Gives : (e : Env) → Gives (WellFormed e) (load e)
unfolding load
load-Gives e =
    let env = environment_name e in
    Gives-or_exit (HasKey e env) (WellFormed e) _ _ (load_kubeconfig_key-HasKey e env) λ key hk.
      Gives-or_exit (λ s. s ≢ "") (WellFormed e) _ _ (database_url-ne-empty e env)
        λ url hu.
          Gives-or_exit (λ s. s ≢ "") (WellFormed e) _ _ (redis_addr-ne-empty e env)
            λ addr ha. record {
              has_port = env_or_default-ne-empty e "PORT" "8080" refl;
              has_namespace = env_or_default-ne-empty e "NAMESPACE" "default" refl;
              has_database = hu;
              has_redis = ha;
              has_key = hk;
            }

-- A configuration that is loaded has a port, a namespace, a database and a Redis address, and a key of 32
-- bytes that was written as 64 characters, or none, which it has only outside production.
pub load-WellFormed : (e : Env) (cfg : Config) → load e ≡ loaded cfg → WellFormed e cfg
load-WellFormed e cfg done = subst (Gives (WellFormed e)) done (load-Gives e)
