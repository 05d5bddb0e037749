-- ===== src/Prelude/Sort/Laws.antt =====
-- Sorting a list with one more element.
use mathlib.Core.Path.{◌≡◌, refl, ap, ◌∙◌}
use mathlib.Core.Bool.{Bool, true, false, not}
use mathlib.Core.Logic.{inl, inr}
use mathlib.Core.List.{List, [], ◌∷◌, ◌++◌, map}
use native.Mathlib.Omega.{arith}
use night_ledger.Prelude.Tests.{Bool-cases}
use night_ledger.Prelude.Lists.{All, any}
use night_ledger.Prelude.Sort.{insert_by, sort_by, insert_after}

-- A preorder in which any two elements can be compared.
pub record IsTotal {ℓ} {A : Type ℓ} (le : A → A → Bool) : Type ℓ where
  pub total : (x y : A) → le x y ≡ false → le y x ≡ true
  pub trans : (x y z : A) → le x y ≡ true → le y z ≡ true → le x z ≡ true

module _ {ℓ} {A : Type ℓ} (le : A → A → Bool) (P : A → Type 0) where
  All-insert_by : (x : A) (l : List A) → P x → All P l → All P (insert_by le x l)
  unfolding insert_by
  All-insert_by x [] p h = (p, tt)
  All-insert_by x (y ∷ l) p h = elim (Bool-cases (le x y)) [
    | inl e ↦ rw e (p, h)
    | inr e ↦ rw e (h.0, All-insert_by x l p h.1)
  ]

  pub All-sort_by : (l : List A) → All P l → All P (sort_by le l)
  unfolding sort_by
  All-sort_by [] h = tt
  All-sort_by (x ∷ l) h = All-insert_by x (sort_by le l) h.0 (All-sort_by l h.1)

module _ {ℓ} {A : Type ℓ} (le : A → A → Bool) (order : IsTotal le) where
  insert_by-insert_after :
      (y x : A) (l : List A)
      → insert_by le y (insert_after le x l) ≡ insert_after le x (insert_by le y l)
  unfolding insert_by insert_after
  insert_by-insert_after y x [] = ground arith
  insert_by-insert_after y x (z ∷ l) =
      ground
        (arith, insert_by-insert_after y x l, order.trans y z x, order.trans y x z, order.total z x)

  -- `x` and the elements of the list are told apart by the order.
  abbrev pub Apart : A → List A → Type 0
  Apart x = All (λ y. le x y ≡ not (le y x))

  insert_by-eq-insert_after :
      (x : A) (l : List A) → Apart x l → insert_by le x l ≡ insert_after le x l
  unfolding insert_by insert_after
  insert_by-eq-insert_after x [] h = refl
  insert_by-eq-insert_after x (y ∷ l) h = ground (arith, insert_by-eq-insert_after x l h.1)

  pub sort_by-snoc :
      (xs : List A) (x : A) → sort_by le (xs ++ x ∷ []) ≡ insert_after le x (sort_by le xs)
  unfolding sort_by insert_by insert_after
  sort_by-snoc [] x = refl
  sort_by-snoc (y ∷ ys) x =
      ap (insert_by le y) (sort_by-snoc ys x) ∙ insert_by-insert_after y x (sort_by le ys)

  -- A list in front of two that differ by one more element.
  pub sort_by-append :
      (xs ys zs : List A) (x : A)
      → sort_by le ys ≡ insert_after le x (sort_by le zs)
      → sort_by le (xs ++ ys) ≡ insert_after le x (sort_by le (xs ++ zs))
  unfolding sort_by
  sort_by-append [] ys zs x h = h
  sort_by-append (w ∷ xs) ys zs x h =
      ap (insert_by le w) (sort_by-append xs ys zs x h)
      ∙ insert_by-insert_after w x (sort_by le (xs ++ zs))

  pub sort_by-cons :
      (x : A) (xs : List A) → Apart x xs → sort_by le (x ∷ xs) ≡ insert_after le x (sort_by le xs)
  unfolding sort_by
  sort_by-cons x xs h =
      insert_by-eq-insert_after x (sort_by le xs) (All-sort_by le (λ y. le x y ≡ not (le y x)) xs h)

module _ {ℓ} {A : Type ℓ} (le : A → A → Bool) (p : A → Bool) where
  any-insert_by : (x : A) (l : List A) → any p (insert_by le x l) ≡ any p (x ∷ l)
  unfolding insert_by any
  any-insert_by x [] = refl
  any-insert_by x (y ∷ l) = ground (arith, any-insert_by x l)

  pub any-sort_by : (l : List A) → any p (sort_by le l) ≡ any p l
  unfolding sort_by any
  any-sort_by [] = refl
  any-sort_by (x ∷ l) = ground (arith, any-insert_by x (sort_by le l), any-sort_by l)

-- A map that keeps the order in which the new element is compared keeps its place.
pub map-insert_after {ℓ κ} :
    {A : Type ℓ} {B : Type κ} (le : A → A → Bool) (le' : B → B → Bool) (f : A → B) (x : A)
    (l : List A)
    → All (λ y. le y x ≡ le' (f y) (f x)) l
    → map f (insert_after le x l) ≡ insert_after le' (f x) (map f l)
unfolding insert_after
map-insert_after le le' f x [] h = refl
map-insert_after le le' f x (y ∷ l) h = ground (arith, h.0, map-insert_after le le' f x l h.1)
