-- ===== src/Config/Worker.antt =====
-- cmd/worker/main.go and NewServer of internal/worker/server.go: the worker's concurrency and cipher.
use Prim.Native.String.{String}
use tark.Common.{suc, Option, none, some, [], ◌∷◌, ◌==◌, Result, ok, err, if◌then◌else◌}
use tark.Models.{Bytes, ℤ, pos}
use tark.Text.Numbers.{atoi}
use tark.Crypto.{Cipher, new_cipher}

-- A number that is not positive gives way.
unfoldable pub positive_or : ℤ → ℤ → ℤ
positive_or fallback (pos (suc n)) = pos (suc n)
positive_or fallback _ = fallback

unfoldable pub parsed_or : ℤ → Option ℤ → ℤ
unfolding positive_or
parsed_or fallback none = fallback
parsed_or fallback (some value) = positive_or fallback value

unfoldable pub parse_concurrency : String → ℤ → ℤ
unfolding parsed_or
parse_concurrency raw fallback = if raw == "" then fallback else parsed_or fallback (atoi raw)

-- `if concurrency <= 0 { concurrency = 10 }` of NewServer
unfoldable pub server_concurrency : ℤ → ℤ
unfolding positive_or
server_concurrency concurrency = positive_or (pos 10) concurrency

unfoldable pub just_cipher : Result Cipher → Result (Option Cipher)
just_cipher (ok c) = ok (some c)
just_cipher (err x) = err x

-- No cipher where there is no key; an error ends the process.
unfoldable pub worker_cipher : Bytes → Result (Option Cipher)
unfolding just_cipher
worker_cipher [] = ok none
worker_cipher (b ∷ key) = just_cipher (new_cipher (b ∷ key))
