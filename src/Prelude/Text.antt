-- ===== src/Prelude/Text.antt =====
-- What the source uses of Python's `str`: white space and `strip`, searching and splitting.
mod Tests
pub mod Split
pub mod Blank
use Prim.Native.Char.{Char, code}
use Prim.Native.Nat.{ℕ, zero, suc}
use Prim.Native.String.{String}
use mathlib.Core.Bool.{Bool, true, false, ◌&&◌, ◌||◌}
use mathlib.Core.List.{List, [], ◌∷◌}
use text.Mathlib.Text.{◌==◌ as str_eq}
use night_ledger.Prelude.Tests.{ltb, leb, ◌==◌, if◌then◌else◌}

-- The code points that `str.strip` removes.
unfoldable pub is_space : ℕ → Bool
is_space c =
    (leb 9 c && leb c 13)
    || (leb 28 c && leb c 32)
    || c == 133
    || c == 160
    || c == 5760
    || (leb 8192 c && leb c 8202)
    || c == 8232
    || c == 8233
    || c == 8239
    || c == 8287
    || c == 12288

unfoldable pub lstrip : String → String
unfolding is_space
lstrip String.[] = ""
lstrip (String.◌∷◌ c s) = let rest = lstrip s in if is_space (code c) then rest else String.◌∷◌ c s

unfoldable pub rstrip : String → String
unfolding is_space
rstrip String.[] = ""
rstrip (String.◌∷◌ c s) =
    let rest = rstrip s in if is_space (code c) && str_eq rest "" then "" else String.◌∷◌ c rest

unfoldable pub strip : String → String
unfolding lstrip rstrip
strip s = rstrip (lstrip s)

-- `not s.strip()`
unfoldable pub is_blank : String → Bool
unfolding strip
is_blank s = str_eq (strip s) ""

unfoldable pub ends_with : String → String → Bool
ends_with String.[] suffix = str_eq "" suffix
ends_with (String.◌∷◌ c s) suffix =
    let rest = ends_with s suffix in if str_eq (String.◌∷◌ c s) suffix then true else rest

-- `s.replace(c, "")` for one character
unfoldable pub remove : ℕ → String → String
remove x String.[] = ""
remove x (String.◌∷◌ c s) = let rest = remove x s in if code c == x then rest else String.◌∷◌ c rest

-- `len(s)`, in code points
unfoldable pub char_count : String → ℕ
char_count String.[] = 0
char_count (String.◌∷◌ c s) = suc (char_count s)

unfoldable pub has_char : ℕ → String → Bool
has_char x String.[] = false
has_char x (String.◌∷◌ c s) = code c == x || has_char x s

unfoldable pub is_ascii : String → Bool
is_ascii String.[] = true
is_ascii (String.◌∷◌ c s) = ltb (code c) 128 && is_ascii s

-- Puts a character before the first of the parts.
abbrev pub onto_first : Char → List String → List String
onto_first c [] = String.◌∷◌ c "" ∷ []
onto_first c (part ∷ parts) = String.◌∷◌ c part ∷ parts

-- `s.split(x)` for one character
unfoldable pub split_on : ℕ → String → List String
split_on x String.[] = "" ∷ []
split_on x (String.◌∷◌ c s) =
    let parts = split_on x s in if code c == x then "" ∷ parts else onto_first c parts

-- `s.split(x, 1)` where `x in s`: what stands before the first `x` and what stands after it.
unfoldable pub split_once : ℕ → String → String × String
split_once x String.[] = ("", "")
split_once x (String.◌∷◌ c s) =
    let (before, after) = split_once x s in
    if code c == x then ("", s) else (String.◌∷◌ c before, after)

-- The first characters of a text: `s[:n]`.
unfoldable pub first_chars : ℕ → String → String
first_chars zero s = ""
first_chars (suc n) String.[] = ""
first_chars (suc n) (String.◌∷◌ c s) = String.◌∷◌ c (first_chars n s)

-- `s[n:]`
unfoldable pub drop_chars : ℕ → String → String
drop_chars zero s = s
drop_chars (suc n) String.[] = ""
drop_chars (suc n) (String.◌∷◌ c s) = drop_chars n s
