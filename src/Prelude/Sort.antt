-- ===== src/Prelude/Sort.antt =====
-- `sorted(xs, key=...)`: a stable sort, by insertion.
pub mod Laws
use mathlib.Core.Bool.{Bool}
use mathlib.Core.List.{List, [], ◌∷◌}
use night_ledger.Prelude.Tests.{if◌then◌else◌}

module _ {ℓ} {A : Type ℓ} (le : A → A → Bool) where
  unfoldable pub insert_by : A → List A → List A
  insert_by x [] = x ∷ []
  insert_by x (y ∷ ys) = let rest = insert_by x ys in if le x y then x ∷ y ∷ ys else y ∷ rest

  unfoldable pub sort_by : List A → List A
  unfolding insert_by
  sort_by [] = []
  sort_by (x ∷ xs) = insert_by x (sort_by xs)

  -- Puts the element behind all that stand at the front and are not after it.
  unfoldable pub insert_after : A → List A → List A
  insert_after x [] = x ∷ []
  insert_after x (y ∷ ys) = let rest = insert_after x ys in if le y x then y ∷ rest else x ∷ y ∷ ys
