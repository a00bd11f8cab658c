-- ===== src/Worker/Kubeconfig/Rewritten.antt =====
-- What the rewriting of a kubeconfig's server lines gives.
use Prim.Native.Char.{Char}
use mathlib.Core.Option.{some-injective}
use tark.Common.{
  ℕ, zero, suc, ◌≤◌, ◌-◌, String, Bool, true, none, some, [], ◌∷◌, ◌++◌, take, length, Option-cases,
  inl, inr, ◌≡◌, refl, ap, ◌<>◌, arith,
}
use tark.Models.{Bytes}
use tark.Text.{to_bytes}
use tark.Text.Expand.{expand, dollar_free, expand-dollar_free, dollar_free-append}
use tark.Worker.Kubeconfig.{match_server, replace_from, server_template, replace_server}
use tark.Worker.Kubeconfig.Matches.{
  IsMatch, match_server-IsMatch, match_server-longest, IsMatch-length,
}

-- The text with every match of the server line, from the left and each as long as it can be, replaced by the
-- line, and all else as it is.
pub data Rewritten (line : Bytes) : Bytes → Bytes → Type 0 where
  done : Rewritten line [] []
  hit :
      {text rest out : Bytes}
      → IsMatch text rest
      → ((other : Bytes) → IsMatch text other → length rest ≤ length other)
      → Rewritten line rest out
      → Rewritten line text (line ++ out)
  miss :
      {c : ℕ} {cs out : Bytes}
      → ((rest : Bytes) → IsMatch (c ∷ cs) rest → ⊥)
      → Rewritten line cs out
      → Rewritten line (c ∷ cs) (c ∷ out)

longest :
    (text rest other : Bytes)
    → match_server text ≡ some rest
    → IsMatch text other
    → length rest ≤ length other
longest text rest other found m =
    let (r, e, short) = match_server-longest text other m in
    let same : length rest ≡ length r = ap length (some-injective rest r (cc (found, e))) in
    omega (arith, same, short)

unmatched : (text rest : Bytes) → match_server text ≡ none → IsMatch text rest → ⊥
unmatched text rest nowhere m =
    let (r, e, short) = match_server-longest text rest m in cc (nowhere, e)

module _ (replacement : Bytes → Bytes) (line : Bytes)
    (constant : (whole : Bytes) → replacement whole ≡ line) where
  replace_from-Rewritten :
      (fuel : ℕ) (text : Bytes)
      → length text ≤ fuel
      → Rewritten line text (replace_from fuel replacement text)
  unfolding replace_from
  replace_from-Rewritten zero [] enough = done
  replace_from-Rewritten zero (c ∷ cs) enough = elim enough [ ]
  replace_from-Rewritten (suc fuel) [] enough = done
  replace_from-Rewritten (suc fuel) (c ∷ cs) enough = elim (Option-cases (match_server (c ∷ cs))) [
    | inl nowhere ↦
        rw (nowhere, replace_from)
          (miss (λ rest. unmatched (c ∷ cs) rest nowhere)
            (replace_from-Rewritten fuel cs (omega (arith, enough))))
    | inr (rest, found) ↦
        let m = match_server-IsMatch (c ∷ cs) rest found in
        rw (found, replace_from, constant (take (length (c ∷ cs) - length rest) (c ∷ cs)))
          (hit m (λ other. longest (c ∷ cs) rest other found)
            (replace_from-Rewritten fuel rest
              (omega (arith, enough, IsMatch-length (c ∷ cs) rest m))))
  ]

server_template-dollar_free :
    (public_ip : String)
    → dollar_free public_ip ≡ true
    → dollar_free (server_template public_ip) ≡ true
server_template-dollar_free public_ip h =
    dollar_free-append "server: https://" (public_ip <> ":16443") refl
      (dollar_free-append public_ip ":16443" h refl)

-- Where the address has no dollar sign, what is made of a fetched kubeconfig is the kubeconfig with each
-- `server: https://`, bytes of one line, `:16443`, from the left and as long as it can be, replaced by
-- `server: https://`, the address, `:16443`, and all else as it is.
pub replace_server-Rewritten :
    (name_rune : Char → Bool) (public_ip : String) (config : Bytes)
    → dollar_free public_ip ≡ true
    → Rewritten
        (to_bytes ("server: https://" <> (public_ip <> ":16443")))
        config
        (replace_server name_rune public_ip config)
unfolding replace_server
replace_server-Rewritten name_rune public_ip config free =
    replace_from-Rewritten (λ whole. expand name_rune whole (server_template public_ip))
      (to_bytes ("server: https://" <> (public_ip <> ":16443")))
      (λ whole.
        expand-dollar_free name_rune whole (server_template public_ip)
          (server_template-dollar_free public_ip free))
      (length config) config (omega arith)
