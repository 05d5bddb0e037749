-- ===== src/Prelude/Text/Tests.antt =====
-- The functions on texts at short inputs.
use mathlib.Core.Bool.{true}
use mathlib.Core.Path.{◌≡◌, refl}
use mathlib.Core.List.{[], ◌∷◌}
use night_ledger.Prelude.Text.{strip, is_blank, split_on, split_once}

strip_both : strip " a b " ≡ "a b"
unfolding strip
strip_both = refl

is_blank_spaces : is_blank "  " ≡ true
unfolding is_blank
is_blank_spaces = refl

split_dots : split_on b'.' "ab..c" ≡ "ab" ∷ "" ∷ "c" ∷ []
unfolding split_on
split_dots = refl

split_first : split_once b':' "a:b:c" ≡ ("a", "b:c")
unfolding split_once
split_first = refl
