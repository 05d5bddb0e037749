-- ===== src/Prelude/Dict.antt =====
-- A Python dict with text keys, as an association list in the order of first insertion.
use Prim.Native.String.{String}
use mathlib.Core.Path.{◌≡◌, refl}
use mathlib.Core.Option.{Option, none, some}
use mathlib.Core.List.{List, [], ◌∷◌}
use native.Mathlib.Omega.{arith}
use text.Mathlib.Text.{◌==◌}
use text.Mathlib.TextEquality.{eq_iff}
use night_ledger.Prelude.Tests.{if◌then◌else◌}

abbrev pub Dict {ℓ} : Type ℓ → Type ℓ
Dict V = List (String × V)

module _ {ℓ} {V : Type ℓ} where
  unfoldable pub lookup : String → Dict V → Option V
  lookup key [] = none
  lookup key ((used, value) ∷ items) =
      let later = lookup key items in if used == key then some value else later

  -- `d[key] = value`: a key that is there keeps its place.
  unfoldable pub insert : String → V → Dict V → Dict V
  insert key value [] = (key, value) ∷ []
  insert key value ((used, held) ∷ items) =
      let later = insert key value items in
      if used == key then (used, value) ∷ items else (used, held) ∷ later

  -- `d.values()`
  unfoldable pub values : Dict V → List V
  values [] = []
  values ((used, value) ∷ items) = value ∷ values items

  pub lookup-insert :
      (key asked : String) (value : V) (items : Dict V)
      → lookup asked (insert key value items)
        ≡ (if key == asked then some value else lookup asked items)
  unfolding lookup insert
  lookup-insert key asked value [] = refl
  lookup-insert key asked value ((used, held) ∷ items) = ground (
    arith,
    lookup-insert key asked value items,
    eq_iff used asked,
    eq_iff used key,
    eq_iff key asked,
  )
