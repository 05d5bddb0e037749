-- ===== src/Prelude/Text/Split.antt =====
-- Splitting a text that was put together.
use Prim.Native.Nat.{ℕ}
use Prim.Native.Char.{Char, code}
use Prim.Native.String.{String, ◌++◌, char_at}
use text.Mathlib.TextLemmas.{nil-append, cons-append}
use mathlib.Core.Path.{◌≡◌, refl}
use mathlib.Core.Bool.{false}
use mathlib.Core.List.{[], ◌∷◌}
use native.Mathlib.Omega.{arith}
use night_ledger.Prelude.Text.{has_char, split_on}

-- A text with no `x` is its only part.
pub split_on-none : (x : ℕ) (s : String) → has_char x s ≡ false → split_on x s ≡ s ∷ []
unfolding split_on has_char
split_on-none x String.[] h = refl
split_on-none x (String.◌∷◌ c s) h = ground (arith, split_on-none x s)

split_on-between :
    (x : ℕ) (c : Char) (s t : String)
    → code c ≡ x
    → has_char x s ≡ false
    → has_char x t ≡ false
    → split_on x (s ++ String.◌∷◌ c t) ≡ s ∷ t ∷ []
unfolding split_on has_char
split_on-between x c String.[] t e h k =
    rw (nil-append (String.◌∷◌ c t)) (ground (arith, split_on-none x t))
split_on-between x c (String.◌∷◌ d s) t e h k =
    rw (cons-append d s (String.◌∷◌ c t)) (ground (arith, split_on-between x c s t))

-- Two texts with no dot, put together with one, are the parts.
pub split_on-dot :
    (s t : String)
    → has_char b'.' s ≡ false
    → has_char b'.' t ≡ false
    → split_on b'.' (s ++ ("." ++ t)) ≡ s ∷ t ∷ []
split_on-dot s t h k =
    rw (cons-append (char_at "." 0) "" t, nil-append t)
      (split_on-between b'.' (char_at "." 0) s t refl h k)
