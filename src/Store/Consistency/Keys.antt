-- ===== src/Store/Consistency/Keys.antt =====
-- Keys: no two rows of a table are the same by a test.
use tark.Common.{
  All, All-append, All-map, All-update_where, List, [], ◌∷◌, ◌++◌, Bool, false, ◌||◌, update_where,
  find_first, find_first-none, Bool-cases, Option-cases, inl, inr, ◌≡◌, ◌∙◌,
}
use tark.Store.Insert.{exists}

module _ {A : Type 0} (same : A → A → Bool) where
  abbrev pub Apart : List A → Type 0
  Apart [] = Unit
  Apart (x ∷ xs) = All (λ y. same x y ≡ false) xs × Apart xs

  pub Apart-append :
      (xs : List A) (x : A) → All (λ y. same y x ≡ false) xs → Apart xs → Apart (xs ++ x ∷ [])
  Apart-append [] x new h = (tt, tt)
  Apart-append (y ∷ ys) x new h =
      (All-append (λ z. same y z ≡ false) ys (x ∷ []) h.0 (new.0, tt), Apart-append ys x new.1 h.1)

  -- An update that the test does not see.
  pub Apart-update_where :
      (p : A → Bool) (f : A → A) (xs : List A)
      → ((x y : A) → same (f x) y ≡ same x y)
      → ((x y : A) → same x (f y) ≡ same x y)
      → Apart xs
      → Apart (update_where p f xs)
  unfolding update_where
  Apart-update_where p f [] left right h = tt
  Apart-update_where p f (x ∷ xs) left right h =
      let rest = Apart-update_where p f xs left right h.1 in
      let others : (z : A)
          → All (λ y. same z y ≡ false) xs
          → All (λ y. same z y ≡ false) (update_where p f xs) =
        λ z. All-update_where (λ y. same z y ≡ false) p f xs (λ y hit apart. right z y ∙ apart) in
      elim (Bool-cases (p x)) [
        | inl hit ↦ rw hit (others (f x) (All-map _ _ xs (λ y apart. left x y ∙ apart) h.0), rest)
        | inr miss ↦ rw miss (others x h.0, rest)
      ]

All-both :
    {A : Type 0} (P Q R : A → Type 0) (xs : List A)
    → ((x : A) → P x → Q x → R x)
    → All P xs
    → All Q xs
    → All R xs
All-both P Q R [] f hp hq = tt
All-both P Q R (x ∷ xs) f hp hq = (f x hp.0 hq.0, All-both P Q R xs f hp.1 hq.1)

-- What an INSERT has found absent.
pub exists-false :
    {A : Type 0} (p : A → Bool) (xs : List A) → exists p xs ≡ false → All (λ y. p y ≡ false) xs
exists-false p xs h = elim (Option-cases (find_first p xs)) [
  | inl absent ↦ find_first-none p xs absent
  | inr (y, present) ↦ cc (rw (present, exists) at h)
]

pub exists-or :
    {A : Type 0} (p q : A → Bool) (xs : List A)
    → exists p xs ≡ false
    → exists q xs ≡ false
    → All (λ y. (p y || q y) ≡ false) xs
exists-or p q xs hp hq =
    All-both (λ y. p y ≡ false) (λ y. q y ≡ false) (λ y. (p y || q y) ≡ false) xs
      (λ y np nq. rw np nq) (exists-false p xs hp) (exists-false q xs hq)
