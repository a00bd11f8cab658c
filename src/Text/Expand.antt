-- ===== src/Text/Expand.antt =====
-- regexp's Expand, which ReplaceAll does to its replacement: `$name` and `${name}` stand for a group, `$$` for
-- a dollar sign, and any other `$` for itself. The pattern has no groups but the whole match, `$0`.
use Prim.Native.Char.{Char, code}
use Prim.Native.String.{String}
use text.Mathlib.TextLemmas.{nil-append, cons-append}
use tark.Common.{
  ℕ, Bool, true, false, not, ◌&&◌, ◌||◌, [], ◌∷◌, ◌++◌, leb, ltb, nat_eq, ◌==◌, ◌<>◌, if◌then◌else◌,
  ◌≡◌, refl, ap, Bool-cases, inl, inr,
}
use tark.Models.{Bytes}
use tark.Text.{utf8, to_bytes}

-- Outside a group's name, after a dollar sign, or in a name, without and with a brace.
pub data Scan : Type 0 where
  plain dollar : Scan
  name braced : String → Scan

unfoldable pub is_word : ℕ → Bool
is_word n = leb 48 n && leb n 57 || leb 65 n && leb n 90 || leb 97 n && leb n 122 || nat_eq n 95

-- A letter, a digit or an underscore, given those outside ASCII.
unfoldable pub is_name_char : (Char → Bool) → Char → Bool
unfolding is_word
is_name_char name_rune c = if ltb (code c) 128 then is_word (code c) else name_rune c

unfoldable pub group : Bytes → String → Bytes
group whole text = if text == "0" then whole else []

unfoldable pub scan_plain : Char → Bytes × Scan
scan_plain c = if nat_eq (code c) 36 then ([], dollar) else (utf8 (code c), plain)

unfoldable pub after : Bytes → Bytes × Scan → Bytes × Scan
after out (more, state) = (out ++ more, state)

unfoldable pub advance : (Char → Bool) → Bytes → Scan → Char → Bytes × Scan
unfolding is_name_char group scan_plain after
advance name_rune whole plain c = scan_plain c
advance name_rune whole dollar c =
    if nat_eq (code c) 36
    then (36 ∷ [], plain)
    else if nat_eq (code c) 123
    then ([], braced "")
    else if is_name_char name_rune c
    then ([], name (String.◌∷◌ c ""))
    else after (36 ∷ []) (scan_plain c)
advance name_rune whole (name text) c =
    if is_name_char name_rune c
    then ([], name (text <> String.◌∷◌ c ""))
    else after (group whole text) (scan_plain c)
advance name_rune whole (braced text) c =
    if is_name_char name_rune c
    then ([], braced (text <> String.◌∷◌ c ""))
    else if nat_eq (code c) 125 && not (text == "")
    then (group whole text, plain)
    else after (36 ∷ 123 ∷ to_bytes text) (scan_plain c)

-- What is left at the end.
unfoldable pub flush : Bytes → Scan → Bytes
unfolding group
flush whole plain = []
flush whole dollar = 36 ∷ []
flush whole (name text) = group whole text
flush whole (braced text) = 36 ∷ 123 ∷ to_bytes text

unfoldable pub expand_from : (Char → Bool) → Bytes → Scan → String → Bytes
unfolding advance flush
expand_from name_rune whole state String.[] = flush whole state
expand_from name_rune whole state (String.◌∷◌ c s) =
    let (out, next) = advance name_rune whole state c in out ++ expand_from name_rune whole next s

-- The template with the groups of the match put in.
unfoldable pub expand : (Char → Bool) → Bytes → String → Bytes
unfolding expand_from
expand name_rune whole template = expand_from name_rune whole plain template

abbrev pub dollar_free : String → Bool
dollar_free String.[] = true
dollar_free (String.◌∷◌ c s) = if nat_eq (code c) 36 then false else dollar_free s

-- A template without a dollar sign stands for itself.
expand_from-dollar_free :
    (name_rune : Char → Bool) (whole : Bytes) (s : String)
    → dollar_free s ≡ true
    → expand_from name_rune whole plain s ≡ to_bytes s
unfolding expand_from advance scan_plain flush to_bytes
expand_from-dollar_free name_rune whole String.[] h = refl
expand_from-dollar_free name_rune whole (String.◌∷◌ c s) h =
    elim (Bool-cases (nat_eq (code c) 36)) [
      | inl sign ↦ cc (rw sign at h)
      | inr other ↦ rw other (
          ap (λ rest. utf8 (code c) ++ rest)
            (expand_from-dollar_free name_rune whole s (rw other at h)))
    ]

pub expand-dollar_free :
    (name_rune : Char → Bool) (whole : Bytes) (s : String)
    → dollar_free s ≡ true
    → expand name_rune whole s ≡ to_bytes s
unfolding expand
expand-dollar_free = expand_from-dollar_free

pub dollar_free-append :
    (s t : String) → dollar_free s ≡ true → dollar_free t ≡ true → dollar_free (s <> t) ≡ true
dollar_free-append String.[] t hs ht = rw (nil-append t) ht
dollar_free-append (String.◌∷◌ c s) t hs ht = elim (Bool-cases (nat_eq (code c) 36)) [
  | inl sign ↦ cc (rw sign at hs)
  | inr other ↦ rw (cons-append c s t, other) (dollar_free-append s t (rw other at hs) ht)
]
