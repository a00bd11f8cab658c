-- ===== src/Common/Members.antt =====
-- The members of selected, sorted and mapped lists.
use mathlib.Core.List.{Memᴰ}
use mathlib.Core.List.Memᴰ.{head, tail}
use mathlib.Core.Bool.{Bool, true}
use mathlib.Core.List.{List, [], ◌∷◌, map}
use mathlib.Core.Path.{◌≡◌, refl, ap, sym, ◌∙◌}
use mathlib.Core.Logic.{inl, inr}
use native.Mathlib.Omega.{arith}
use Prim.Native.Nat.{ℕ, zero, suc, ◌<◌}
use tark.Common.Tests.{leb, Bool-cases}
use mathlib.Core.Option.{some, some-injective}
use tark.Common.Lists.{
  All-map, length, get_elem?, find_first, select_where, sort_desc, insert_desc, take, All,
}

module _ {ℓ} {A : Type ℓ} where
  pub take-Mem : (n : ℕ) (xs : List A) {x : A} → Memᴰ x (take n xs) → Memᴰ x xs
  take-Mem zero xs m = elim m [ ]
  take-Mem (suc n) [] m = elim m [ ]
  take-Mem (suc n) (y ∷ ys) (head q) = head q
  take-Mem (suc n) (y ∷ ys) (tail k) = tail (take-Mem n ys k)

  pub select_where-Mem :
      (p : A → Bool) (xs : List A) {x : A} → Memᴰ x (select_where p xs) → Memᴰ x xs × (p x ≡ true)
  unfolding select_where
  select_where-Mem p [] m = elim m [ ]
  select_where-Mem p (y ∷ ys) {x} m = elim (Bool-cases (p y)) [
    | inl e ↦ elim (rw e at m) [
      | head q ↦ (head q, ap p q ∙ e)
      | tail k ↦ let (in_ys, t) = select_where-Mem p ys k in (tail in_ys, t)
    ]
    | inr e ↦ let (in_ys, t) = select_where-Mem p ys (rw e at m) in (tail in_ys, t)
  ]

  pub Mem-select_where :
      (p : A → Bool) (xs : List A) {x : A} → Memᴰ x xs → p x ≡ true → Memᴰ x (select_where p xs)
  unfolding select_where
  Mem-select_where p [] m t = elim m [ ]
  Mem-select_where p (y ∷ ys) (head q) t = rw (sym (ap p q) ∙ t) (head q)
  Mem-select_where p (y ∷ ys) (tail k) t = elim (Bool-cases (p y)) [
    | inl e ↦ rw e (tail (Mem-select_where p ys k t))
    | inr e ↦ rw e (Mem-select_where p ys k t)
  ]

  insert_desc-Mem :
      (key : A → ℕ) (y : A) (xs : List A) {x : A} → Memᴰ x (insert_desc key y xs) → Memᴰ x (y ∷ xs)
  unfolding insert_desc
  insert_desc-Mem key y [] m = m
  insert_desc-Mem key y (z ∷ zs) m = elim (Bool-cases (leb (key z) (key y))) [
    | inl e ↦ rw e at m
    | inr e ↦ elim (rw e at m) [
      | head q ↦ tail (head q)
      | tail k ↦ elim (insert_desc-Mem key y zs k) [ head q ↦ head q | tail j ↦ tail (tail j) ]
    ]
  ]

  Mem-insert_desc :
      (key : A → ℕ) (y : A) (xs : List A) {x : A} → Memᴰ x (y ∷ xs) → Memᴰ x (insert_desc key y xs)
  unfolding insert_desc
  Mem-insert_desc key y [] m = m
  Mem-insert_desc key y (z ∷ zs) m = elim (Bool-cases (leb (key z) (key y))) [
    | inl e ↦ rw e m
    | inr e ↦ rw e (elim m [
      | head q ↦ tail (Mem-insert_desc key y zs (head q))
      | tail k ↦ elim k [ head q ↦ head q | tail j ↦ tail (Mem-insert_desc key y zs (tail j)) ]
    ])
  ]

  pub sort_desc-Mem : (key : A → ℕ) (xs : List A) {x : A} → Memᴰ x (sort_desc key xs) → Memᴰ x xs
  unfolding sort_desc
  sort_desc-Mem key [] m = m
  sort_desc-Mem key (y ∷ ys) m = elim (insert_desc-Mem key y (sort_desc key ys) m) [
    | head q ↦ head q
    | tail k ↦ tail (sort_desc-Mem key ys k)
  ]

  pub Mem-sort_desc : (key : A → ℕ) (xs : List A) {x : A} → Memᴰ x xs → Memᴰ x (sort_desc key xs)
  unfolding sort_desc
  Mem-sort_desc key [] m = elim m [ ]
  Mem-sort_desc key (y ∷ ys) (head q) = Mem-insert_desc key y _ (head q)
  Mem-sort_desc key (y ∷ ys) (tail k) = Mem-insert_desc key y _ (tail (Mem-sort_desc key ys k))

  pub get_elem?-Mem : (xs : List A) (i : ℕ) {x : A} → get_elem? xs i ≡ some x → Memᴰ x xs
  get_elem?-Mem [] i h = cc
  get_elem?-Mem (y ∷ ys) zero {x} h = head (sym (some-injective y x h))
  get_elem?-Mem (y ∷ ys) (suc i) h = tail (get_elem?-Mem ys i h)

  pub get_elem?_of_lt : (xs : List A) (i : ℕ) → i < length xs → (x : A) × (get_elem? xs i ≡ some x)
  get_elem?_of_lt [] i h = elim h [ ]
  get_elem?_of_lt (y ∷ ys) zero h = (y, refl)
  get_elem?_of_lt (y ∷ ys) (suc i) h = get_elem?_of_lt ys i (omega (arith, h))

  pub find_first-Mem : (p : A → Bool) (xs : List A) {x : A} → find_first p xs ≡ some x → Memᴰ x xs
  unfolding find_first
  find_first-Mem p [] e = cc
  find_first-Mem p (y ∷ ys) {x} e = elim (Bool-cases (p y)) [
    | inl q ↦ head (sym (some-injective y x (rw q at e)))
    | inr q ↦ tail (find_first-Mem p ys (rw q at e))
  ]

  pub All-self : (xs : List A) → All (λ x. Memᴰ x xs) xs
  All-self [] = tt
  All-self (x ∷ xs) = (head refl, All-map _ _ xs (λ y m. tail m) (All-self xs))

  pub All-Mem {κ} :
      (P : A → Type κ) (xs : List A) {x : A} → All P xs → Memᴰ x xs → (y : A) × P y × (x ≡ y)
  All-Mem P [] h m = elim m [ ]
  All-Mem P (y ∷ ys) h (head q) = (y, h.0, q)
  All-Mem P (y ∷ ys) h (tail k) = All-Mem P ys h.1 k

module _ {ℓ κ} {A : Type ℓ} {B : Type κ} (f : A → B) where
  pub map-Mem : (xs : List A) {y : B} → Memᴰ y (map f xs) → (x : A) × Memᴰ x xs × (y ≡ f x)
  map-Mem [] m = elim m [ ]
  map-Mem (x ∷ xs) (head q) = (x, head refl, q)
  map-Mem (x ∷ xs) (tail k) = let (z, in_xs, q) = map-Mem xs k in (z, tail in_xs, q)

  pub Mem-map : (xs : List A) {x : A} → Memᴰ x xs → Memᴰ (f x) (map f xs)
  Mem-map [] m = elim m [ ]
  Mem-map (y ∷ ys) (head q) = head (ap f q)
  Mem-map (y ∷ ys) (tail k) = tail (Mem-map ys k)
