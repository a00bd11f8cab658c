-- ===== src/Worker/Provision/RoundTrip.antt =====
-- What the provision task stores of a kubeconfig, and what the deploy and delete tasks read of it.
use tark.Common.{Option, none, some, All, ok, ◌≡◌, refl}
use tark.Common.Results.{ok-injective}
use tark.Models.{Bytes}
use tark.Crypto.{Cipher}
use tark.Crypto.Base64.{IsByte}
use tark.Crypto.RoundTrip.{IsSound, decrypt-encrypt}
use tark.Worker.Shared.{Server, decrypt_kubeconfig, decrypt_with}
use tark.Worker.Provision.{protect}
use tark.System.Env.{Env}
use tark.System.Act.{World, pure}

-- A worker that encrypts has a cipher that keeps its promises.
abbrev pub IsSafe : Env → Option Cipher → Type 0
IsSafe e none = Unit
IsSafe e (some c) = IsSound e (e.aead c.key)

decrypt_with-protect :
    (e : Env) (w w' : World) (cipher : Option Cipher) (config stored : Bytes)
    → IsSafe e cipher
    → All IsByte config
    → (protect cipher config e w).0 ≡ ok stored
    → decrypt_with cipher stored e w' ≡ (ok config, w')
unfolding protect decrypt_with pure
decrypt_with-protect e w w' none config stored safe bytes h = rw (ok-injective h) refl
decrypt_with-protect e w w' (some c) config stored safe bytes h =
    decrypt-encrypt e c config w w' stored bytes safe h

-- While the cipher keeps its promises, what a worker stores of a kubeconfig, encrypted or not, is the
-- kubeconfig again for any worker with the same cipher, at any later moment.
pub decrypt_kubeconfig-protect :
    (e : Env) (w w' : World) (s s' : Server) (config stored : Bytes)
    → s'.cipher ≡ s.cipher
    → IsSafe e s.cipher
    → All IsByte config
    → (protect s.cipher config e w).0 ≡ ok stored
    → decrypt_kubeconfig s' stored e w' ≡ (ok config, w')
unfolding decrypt_kubeconfig
decrypt_kubeconfig-protect e w w' s s' config stored same safe bytes h =
    rw same (decrypt_with-protect e w w' s.cipher config stored safe bytes h)
