-- ===== src/Common/Lists.antt =====
-- Lists: length and index over the native numbers, SQL-like selection, update and order, and a
-- predicate on all members.
use Prim.Native.Nat.{ℕ, zero, suc, ◌+◌}
use mathlib.Core.Path.{◌≡◌, refl, ap, subst}
use mathlib.Core.Logic.{inl, inr}
use mathlib.Core.Bool.{Bool, true, false}
use mathlib.Core.Option
use mathlib.Core.Option.{Option, none, some, some-injective}
use mathlib.Core.List.{List, [], ◌∷◌, ◌++◌}
use native.Mathlib.Omega.{arith}
use tark.Common.Tests.{leb, Bool-cases, if◌then◌else◌}

module _ {ℓ} {A : Type ℓ} where
  abbrev pub length : List A → ℕ
  length [] = 0
  length (x ∷ xs) = suc (length xs)

  abbrev pub get_elem? : List A → ℕ → Option A
  get_elem? [] i = none
  get_elem? (x ∷ xs) zero = some x
  get_elem? (x ∷ xs) (suc i) = get_elem? xs i

  abbrev pub take : ℕ → List A → List A
  take zero xs = []
  take (suc n) [] = []
  take (suc n) (x ∷ xs) = x ∷ take n xs

  abbrev pub drop : ℕ → List A → List A
  drop zero xs = xs
  drop (suc n) [] = []
  drop (suc n) (x ∷ xs) = drop n xs

  -- The first member that passes the test.
  unfoldable pub find_first : (A → Bool) → List A → Option A
  find_first p [] = none
  find_first p (x ∷ xs) = if p x then some x else find_first p xs

  -- The members that pass the test, in order.
  unfoldable pub select_where : (A → Bool) → List A → List A
  select_where p [] = []
  select_where p (x ∷ xs) = let rest = select_where p xs in if p x then x ∷ rest else rest

  -- Every member that passes the test is replaced.
  unfoldable pub update_where : (A → Bool) → (A → A) → List A → List A
  update_where p f [] = []
  update_where p f (x ∷ xs) = (if p x then f x else x) ∷ update_where p f xs

  unfoldable pub insert_desc : (A → ℕ) → A → List A → List A
  insert_desc key x [] = x ∷ []
  insert_desc key x (y ∷ ys) =
      let rest = insert_desc key x ys in if leb (key y) (key x) then x ∷ y ∷ ys else y ∷ rest

  -- Largest key first.
  unfoldable pub sort_desc : (A → ℕ) → List A → List A
  unfolding insert_desc
  sort_desc key [] = []
  sort_desc key (x ∷ xs) = insert_desc key x (sort_desc key xs)

  pub length-append : (xs ys : List A) → length (xs ++ ys) ≡ length xs + length ys
  length-append [] ys = omega arith
  length-append (x ∷ xs) ys = omega (arith, length-append xs ys)

  pub length-update_where :
      (p : A → Bool) (f : A → A) (xs : List A) → length (update_where p f xs) ≡ length xs
  unfolding update_where
  length-update_where p f [] = refl
  length-update_where p f (x ∷ xs) = ap suc (length-update_where p f xs)

module _ {ℓ κ} {A : Type ℓ} (P : A → Type κ) where
  abbrev pub All : List A → Type κ
  All [] = Unit
  All (x ∷ xs) = P x × All xs

  pub All-append : (xs ys : List A) → All xs → All ys → All (xs ++ ys)
  All-append [] ys hx hy = hy
  All-append (x ∷ xs) ys hx hy = (hx.0, All-append xs ys hx.1 hy)

  pub All-update_where :
      (p : A → Bool) (f : A → A) (xs : List A)
      → ((x : A) → p x ≡ true → P x → P (f x))
      → All xs
      → All (update_where p f xs)
  unfolding update_where
  All-update_where p f [] keep h = tt
  All-update_where p f (x ∷ xs) keep h = elim (Bool-cases (p x)) [
    | inl e ↦ rw e (keep x e h.0, All-update_where p f xs keep h.1)
    | inr e ↦ rw e (h.0, All-update_where p f xs keep h.1)
  ]

  -- What an update establishes of every member, whatever held before.
  pub All-update_where_new :
      (p : A → Bool) (f : A → A) (xs : List A)
      → ((x : A) → p x ≡ true → P (f x))
      → ((x : A) → p x ≡ false → P x)
      → All (update_where p f xs)
  unfolding update_where
  All-update_where_new p f [] hit miss = tt
  All-update_where_new p f (x ∷ xs) hit miss = elim (Bool-cases (p x)) [
    | inl e ↦ rw e (hit x e, All-update_where_new p f xs hit miss)
    | inr e ↦ rw e (miss x e, All-update_where_new p f xs hit miss)
  ]

  pub All-select_where : (p : A → Bool) (xs : List A) → All xs → All (select_where p xs)
  unfolding select_where
  All-select_where p [] h = tt
  All-select_where p (x ∷ xs) h = elim (Bool-cases (p x)) [
    | inl e ↦ rw e (h.0, All-select_where p xs h.1)
    | inr e ↦ rw e (All-select_where p xs h.1)
  ]

  All-insert_desc : (key : A → ℕ) (x : A) (xs : List A) → P x → All xs → All (insert_desc key x xs)
  unfolding insert_desc
  All-insert_desc key x [] hx h = (hx, tt)
  All-insert_desc key x (y ∷ ys) hx h = elim (Bool-cases (leb (key y) (key x))) [
    | inl e ↦ rw e (hx, h)
    | inr e ↦ rw e (h.0, All-insert_desc key x ys hx h.1)
  ]

  pub All-sort_desc : (key : A → ℕ) (xs : List A) → All xs → All (sort_desc key xs)
  unfolding sort_desc
  All-sort_desc key [] h = tt
  All-sort_desc key (x ∷ xs) h =
      All-insert_desc key x (sort_desc key xs) h.0 (All-sort_desc key xs h.1)

  -- What holds of every member holds of the one that is found.
  pub All-find_first :
      (p : A → Bool) (xs : List A) {x : A} → All xs → find_first p xs ≡ some x → P x
  unfolding find_first
  All-find_first p [] h e = cc
  All-find_first p (y ∷ ys) {x} h e = elim (Bool-cases (p y)) [
    | inl q ↦ subst P (some-injective y x (rw q at e)) h.0
    | inr q ↦ All-find_first p ys h.1 (rw q at e)
  ]

-- What holds of every member may be weakened.
pub All-map {ℓ κ μ} :
    {A : Type ℓ} (P : A → Type κ) (Q : A → Type μ) (xs : List A)
    → ((x : A) → P x → Q x)
    → All P xs
    → All Q xs
All-map P Q [] f h = tt
All-map P Q (x ∷ xs) f h = (f x h.0, All-map P Q xs f h.1)

module _ {ℓ} {A : Type ℓ} where
  -- What is found passes the test.
  pub find_first_test : (p : A → Bool) (xs : List A) {x : A} → find_first p xs ≡ some x → p x ≡ true
  unfolding find_first
  find_first_test p [] e = cc
  find_first_test p (y ∷ ys) {x} e = elim (Bool-cases (p y)) [
    | inl q ↦ subst (λ z. p z ≡ true) (some-injective y x (rw q at e)) q
    | inr q ↦ find_first_test p ys (rw q at e)
  ]

  pub find_first-none :
      (p : A → Bool) (xs : List A) → find_first p xs ≡ none → All (λ x. p x ≡ false) xs
  unfolding find_first
  find_first-none p [] e = tt
  find_first-none p (y ∷ ys) e = elim (Bool-cases (p y)) [
    | inl q ↦ cc (rw q at e)
    | inr q ↦ (q, find_first-none p ys (rw q at e))
  ]

  -- An update that leaves the test alone changes what the test finds, and only that.
  pub find_first-update_where :
      (p q : A → Bool) (f : A → A) (xs : List A)
      → ((x : A) → q (f x) ≡ q x)
      → find_first q (update_where p f xs)
        ≡ Option.map (λ x. if p x then f x else x) (find_first q xs)
  unfolding find_first update_where
  find_first-update_where p q f [] same = refl
  find_first-update_where p q f (x ∷ xs) same =
      ground (arith, same x, find_first-update_where p q f xs same)

  pub find_first-append :
      (q : A → Bool) (xs ys : List A)
      → find_first q (xs ++ ys)
        ≡ elim (find_first q xs) [ some x ↦ some x | none ↦ find_first q ys ]
  unfolding find_first
  find_first-append q [] ys = refl
  find_first-append q (x ∷ xs) ys = ground (arith, find_first-append q xs ys)
