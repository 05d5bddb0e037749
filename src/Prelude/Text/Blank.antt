-- ===== src/Prelude/Text/Blank.antt =====
-- White space at the ends of a text.
use Prim.Native.Char.{Char, code}
use Prim.Native.String.{String}
use mathlib.Core.Bool.{Bool, true, false, ◌&&◌}
use mathlib.Core.Path.{◌≡◌, refl, sym, ap, ◌∙◌}
use mathlib.Core.Logic.{inl, inr}
use text.Mathlib.TextLemmas.{cons-ne-nil}
use native.Mathlib.Omega.{arith}
use text.Mathlib.Text.{◌==◌ as str_eq}
use text.Mathlib.TextEquality.{eq_iff}
use night_ledger.Prelude.Tests.{if◌then◌else◌, Bool-cases}
use night_ledger.Prelude.Text.{is_space, lstrip, rstrip, strip, is_blank}

abbrev all_space : String → Bool
all_space String.[] = true
all_space (String.◌∷◌ c s) = is_space (code c) && all_space s

cons-is_empty : (c : Char) (s : String) → str_eq (String.◌∷◌ c s) "" ≡ false
cons-is_empty c s = elim (Bool-cases (str_eq (String.◌∷◌ c s) "")) [
  | inr e ↦ e
  | inl e ↦ absurd (cons-ne-nil c s ((eq_iff (String.◌∷◌ c s) "").0 e))
]

abbrev keep : Bool → Char → String → String
keep b c s = if b && str_eq s "" then "" else String.◌∷◌ c s

lstrip-cons :
    (c : Char) (s : String)
    → lstrip (String.◌∷◌ c s) ≡ (if is_space (code c) then lstrip s else String.◌∷◌ c s)
unfolding lstrip
lstrip-cons c s = refl

rstrip-cons :
    (c : Char) (s : String) → rstrip (String.◌∷◌ c s) ≡ keep (is_space (code c)) c (rstrip s)
unfolding rstrip
rstrip-cons c s = refl

lstrip-all_space : (s : String) → all_space (lstrip s) ≡ all_space s
unfolding lstrip
lstrip-all_space String.[] = refl
lstrip-all_space (String.◌∷◌ c s) = ground (arith, lstrip-all_space s)

rstrip-blank : (s : String) → str_eq (rstrip s) "" ≡ all_space s
rstrip-blank String.[] = unfold rstrip in refl
rstrip-blank (String.◌∷◌ c s) =
    rw (rstrip-cons c s)
      (kept (is_space (code c)) c (rstrip s) ∙ ap (λ b. is_space (code c) && b) (rstrip-blank s))
  where
    kept : (b : Bool) (c : Char) (t : String) → str_eq (keep b c t) "" ≡ (b && str_eq t "")
    kept true c t = elim (Bool-cases (str_eq t "")) [
      | inl e ↦ rw (e) refl
      | inr e ↦ rw (e) (cons-is_empty c t)
    ]
    kept false c t = cons-is_empty c t

rstrip-all_space : (s : String) → all_space (rstrip s) ≡ all_space s
rstrip-all_space String.[] = unfold rstrip in refl
rstrip-all_space (String.◌∷◌ c s) = rw (rstrip-cons c s) (
    kept (is_space (code c)) c (rstrip s) refl
    ∙ ap (λ b. is_space (code c) && b) (rstrip-all_space s))
  where
    kept :
        (b : Bool) (c : Char) (t : String)
        → is_space (code c) ≡ b
        → all_space (keep b c t) ≡ (b && all_space t)
    kept true c t h = elim (Bool-cases (str_eq t "")) [
      | inl e ↦ rw (e, (eq_iff t "").0 e) refl
      | inr e ↦ rw (e, h) refl
    ]
    kept false c t h = rw h refl

-- A text is blank if all its characters are white space.
is_blank-all_space : (s : String) → is_blank s ≡ all_space s
unfolding is_blank strip
is_blank-all_space s = rstrip-blank (lstrip s) ∙ lstrip-all_space s

pub is_blank-strip : (s : String) → is_blank (strip s) ≡ is_blank s
is_blank-strip s =
    is_blank-all_space (strip s)
    ∙ unfold strip in rstrip-all_space (lstrip s) ∙ lstrip-all_space s ∙ sym (is_blank-all_space s)
