-- ===== src/Worker/Kubeconfig.antt =====
-- internal/worker/server.go: the retries of the SSH session, and the server line of a kubeconfig.
pub mod Keep
pub mod Fetched
pub mod Matches
pub mod Rewritten
use Prim.Native.Char.{Char}
use tark.Common.{
  ℕ, zero, suc, String, Option, none, some, List, [], ◌∷◌, ◌++◌, Bool, true, false, ◌&&◌, Error,
  Result, ok, err, wrap, ◌<>◌, take, drop, length, ◌-◌, nat_eq, if◌then◌else◌,
}
use tark.Models.{Bytes}
use tark.Text.{to_bytes}
use tark.Text.Expand.{expand}
use tark.Worker.Provisioner.{fetch_remote_kubeconfig}
use tark.System.Env.{Env}
use tark.System.Act.{Act, Event, ◌>>=◌, ◌>>◌, pure, request, check}

-- The rounds that are left, and the error of the last one.
fetch_rounds : ℕ → String → String → Error → Act (Result Bytes)
fetch_rounds zero public_ip key_path last =
    pure (wrap "failed to fetch kubeconfig after retries" last)
fetch_rounds (suc rounds) public_ip key_path last =
    check (fetch_remote_kubeconfig public_ip key_path)
      (λ x. do request (Event.sleep 10) (λ e n. tt); fetch_rounds rounds public_ip key_path x)
      λ config. pure (ok config)

abbrev pub max_retries : ℕ
max_retries = 30

pub fetch_kubeconfig_with_retry : String → String → Act (Result Bytes)
unfolding fetch_rounds
fetch_kubeconfig_with_retry public_ip key_path = fetch_rounds max_retries public_ip key_path ""

-- The text begins with the bytes.
unfoldable pub begins_with : Bytes → Bytes → Bool
begins_with [] text = true
begins_with (p ∷ ps) [] = false
begins_with (p ∷ ps) (c ∷ cs) = nat_eq p c && begins_with ps cs

unfoldable pub server_prefix : Bytes
unfolding to_bytes
server_prefix = to_bytes "server: https://"

unfoldable pub server_port : Bytes
unfolding to_bytes
server_port = to_bytes ":16443"

-- `.*:16443`: what follows the last `:16443` of the line, as `.*` is greedy and stops at a newline
unfoldable pub after_port : Bytes → Option Bytes
unfolding begins_with server_port
after_port [] = none
after_port (c ∷ cs) =
    let further = after_port cs in
    let here = if begins_with server_port (c ∷ cs) then some (drop 6 (c ∷ cs)) else none in
    if nat_eq c 10 then none else elim further [ some rest ↦ some rest | none ↦ here ]

-- The match of `server: https://.*:16443` that begins here, by what follows it.
unfoldable pub match_server : Bytes → Option Bytes
unfolding begins_with server_prefix after_port
match_server text = if begins_with server_prefix text then after_port (drop 16 text) else none

-- regexp.ReplaceAll, leftmost match first, with what each match is replaced by. Each round takes at least one
-- byte, so the length of the text is fuel enough.
unfoldable pub replace_from : ℕ → (Bytes → Bytes) → Bytes → Bytes
replace_from zero line text = text
replace_from (suc fuel) line [] = []
replace_from (suc fuel) line (c ∷ cs) = elim (match_server (c ∷ cs)) [
  | some rest ↦ line (take (length (c ∷ cs) - length rest) (c ∷ cs)) ++ replace_from fuel line rest
  | none ↦ c ∷ replace_from fuel line cs
]

-- newServerLine
abbrev pub server_template : String → String
server_template public_ip = "server: https://" <> (public_ip <> ":16443")

unfoldable pub replace_server : (Char → Bool) → String → Bytes → Bytes
unfolding replace_from
replace_server name_rune public_ip config =
    replace_from (length config) (λ whole. expand name_rune whole (server_template public_ip))
      config
