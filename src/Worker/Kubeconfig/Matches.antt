-- ===== src/Worker/Kubeconfig/Matches.antt =====
-- What the pattern of a kubeconfig's server line matches.
use mathlib.Core.Option.{some-injective}
use tark.Common.{
  ◌+◌, ◌<◌, ◌≤◌, true, false, some, [], ◌∷◌, ◌++◌, All, drop, length, nat_eq, Bool-cases,
  Option-cases, inl, inr, ◌≡◌, refl, ap, sym, ◌∙◌, arith,
}
use tark.Models.{Bytes}
use tark.Text.{to_bytes, utf8}
use tark.Worker.Kubeconfig.{begins_with, server_prefix, server_port, after_port, match_server}

-- Bytes with no newline.
abbrev pub OneLine : Bytes → Type 0
OneLine = All (λ b. nat_eq b 10 ≡ false)

-- `server: https://`, bytes of one line, `:16443`, and then the rest.
pub record IsMatch (text rest : Bytes) : Type 0 where
  pub middle : Bytes
  pub one_line : OneLine middle
  pub shape : text ≡ to_bytes "server: https://" ++ (middle ++ (to_bytes ":16443" ++ rest))

-- `:16443` after bytes of one line.
record IsPort (text rest : Bytes) : Type 0 where
  middle : Bytes
  one_line : OneLine middle
  shape : text ≡ middle ++ (to_bytes ":16443" ++ rest)

begins_with-append : (p t : Bytes) → begins_with p (p ++ t) ≡ true
unfolding begins_with
begins_with-append [] t = refl
begins_with-append (b ∷ p) t = ground (arith, begins_with-append p t)

begins_with-shape : (p t : Bytes) → begins_with p t ≡ true → t ≡ p ++ drop (length p) t
unfolding begins_with
begins_with-shape [] t h = refl
begins_with-shape (b ∷ p) [] h = cc
begins_with-shape (b ∷ p) (c ∷ t) h = elim (Bool-cases (nat_eq b c)) [
  | inl same ↦
      let equal : b ≡ c = ground (arith, same) in
      let rest = begins_with-shape p t (rw same at h) in
      ap (λ x. c ∷ x) rest ∙ ap (λ x. x ∷ (p ++ drop (length p) t)) (sym equal)
  | inr other ↦ cc (rw other at h)
]

length-append : (xs ys : Bytes) → length (xs ++ ys) ≡ length xs + length ys
length-append [] ys = omega arith
length-append (x ∷ xs) ys = omega (arith, length-append xs ys)

after_port-IsPort : (text rest : Bytes) → after_port text ≡ some rest → IsPort text rest
unfolding after_port server_port to_bytes utf8
after_port-IsPort [] rest e = cc
after_port-IsPort (c ∷ cs) rest e = elim (Bool-cases (nat_eq c 10)) [
  | inl newline ↦ cc (rw newline at e)
  | inr inline ↦ elim (Option-cases (after_port cs)) [
    | inl last ↦ elim (Bool-cases (begins_with server_port (c ∷ cs))) [
      | inl here ↦
          let same : drop 5 cs ≡ rest = some-injective _ rest (rw (inline, last, here) at e) in
          record {
            middle = [];
            one_line = tt;
            shape =
                begins_with-shape server_port (c ∷ cs) here ∙ ap (λ x. to_bytes ":16443" ++ x) same;
          }
      | inr nowhere ↦ cc (rw (inline, last, nowhere) at e)
    ]
    | inr (r, further) ↦
        let same : r ≡ rest = some-injective r rest (rw (inline, further) at e) in
        let found = after_port-IsPort cs r further in
        record {
          middle = c ∷ found.middle;
          one_line = (inline, found.one_line);
          shape =
              ap (λ x. c ∷ x)
                (found.shape ∙ ap (λ x. found.middle ++ (to_bytes ":16443" ++ x)) same);
        }
  ]
]

IsPort-length : (text rest : Bytes) → IsPort text rest → length rest + 6 ≤ length text
unfolding to_bytes utf8
IsPort-length text rest p = omega (
  arith,
  ap length p.shape,
  length-append p.middle (to_bytes ":16443" ++ rest),
  length-append (to_bytes ":16443") rest,
)

-- The rest that the greedy pattern leaves, at most as long as any other.
abbrev Shortest : Bytes → Bytes → Type 0
Shortest text rest = (found : Bytes) × (after_port text ≡ some found) × (length found ≤ length rest)

after_port-Shortest :
    (middle rest : Bytes) → OneLine middle → Shortest (middle ++ (to_bytes ":16443" ++ rest)) rest
unfolding after_port server_port begins_with to_bytes utf8
after_port-Shortest [] rest one =
    let cs : Bytes = 49 ∷ 54 ∷ 52 ∷ 52 ∷ 51 ∷ rest in
    elim (Option-cases (after_port cs)) [
      | inl last ↦ (rest, rw last refl, omega arith)
      | inr (r, further) ↦
          let short = IsPort-length cs r (after_port-IsPort cs r further) in
          (r, rw further refl, omega (arith, short))
    ]
after_port-Shortest (c ∷ cs) rest one =
    let (found, e, short) = after_port-Shortest cs rest one.1 in (found, rw (one.0, e) refl, short)

pub match_server-IsMatch : (text rest : Bytes) → match_server text ≡ some rest → IsMatch text rest
unfolding match_server server_prefix
match_server-IsMatch text rest e = elim (Bool-cases (begins_with server_prefix text)) [
  | inl here ↦
      let port = after_port-IsPort (drop 16 text) rest (rw here at e) in
      record {
        middle = port.middle;
        one_line = port.one_line;
        shape =
            begins_with-shape server_prefix text here
            ∙ ap (λ x. to_bytes "server: https://" ++ x) port.shape;
      }
  | inr nowhere ↦ cc (rw nowhere at e)
]

-- Where the pattern matches, the match that is found is at least as long as any.
pub match_server-longest :
    (text rest : Bytes)
    → IsMatch text rest
    → (found : Bytes) × (match_server text ≡ some found) × (length found ≤ length rest)
unfolding match_server server_prefix begins_with to_bytes utf8
match_server-longest text rest m =
    let (found, e, short) = after_port-Shortest m.middle rest m.one_line in
    (found, rw (m.shape) e, short)

pub IsMatch-length : (text rest : Bytes) → IsMatch text rest → length rest < length text
unfolding to_bytes utf8
IsMatch-length text rest m =
    let port : Bytes = m.middle ++ (to_bytes ":16443" ++ rest) in
    let long =
      IsPort-length port rest (record { middle = m.middle; one_line = m.one_line; shape = refl }) in
    omega (arith, ap length m.shape, long)
