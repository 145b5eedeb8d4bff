-- ===== src/Prelude/Text.antt =====
-- Python texts as lists of code points, and what the program asks of them.
use Prim.Native.Nat.{ℕ}
use Prim.Native.Char.{code}
use Prim.Native.String.{String}
use mathlib.Core.Path.{◌≡◌, refl, ap₂}
use mathlib.Core.Bool.{Bool, true, false, ◌&&◌, ◌||◌}
use mathlib.Core.List.{List, [], ◌∷◌, ◌++◌}
use native.Mathlib.Omega.{arith}
use shiftmate_web.Prelude.Tests.{ltb, leb, ◌==◌, if◌then◌else◌}

abbrev pub Text : Type 0
Text = List ℕ

-- The code points of a literal.
abbrev pub codes : String → Text
codes String.[] = []
codes (String.◌∷◌ c s) = code c ∷ codes s

-- `str.isspace` of one character.
abbrev pub is_space : ℕ → Bool
is_space c =
    (leb 9 c && leb c 13)
    || (leb 28 c && leb c 32)
    || c == 133
    || c == 160
    || c == 5760
    || (leb 8192 c && leb c 8202)
    || c == 8232
    || c == 8233
    || c == 8239
    || c == 8287
    || c == 12288

-- `not s.strip()`.
abbrev pub is_blank : Text → Bool
is_blank [] = true
is_blank (c ∷ s) = is_space c && is_blank s

abbrev pub text_eq : Text → Text → Bool
text_eq [] [] = true
text_eq [] (d ∷ t) = false
text_eq (c ∷ s) [] = false
text_eq (c ∷ s) (d ∷ t) = c == d && text_eq s t

-- `s <= t`, by code points.
abbrev pub text_leb : Text → Text → Bool
text_leb [] t = true
text_leb (c ∷ s) [] = false
text_leb (c ∷ s) (d ∷ t) = if c == d then text_leb s t else ltb c d

pub text_eq→eq : (s t : Text) → text_eq s t ≡ true → s ≡ t
text_eq→eq [] [] h = refl
text_eq→eq [] (d ∷ t) h = ground arith
text_eq→eq (c ∷ s) [] h = ground arith
text_eq→eq (c ∷ s) (d ∷ t) h = ap₂ ◌∷◌ (ground arith) (text_eq→eq s t (ground arith))

pub text_eq_refl : (s : Text) → text_eq s s ≡ true
text_eq_refl [] = refl
text_eq_refl (c ∷ s) = ground (arith, text_eq_refl s)

-- A character in front of the first text.
abbrev pub put_first : ℕ → List Text → List Text
put_first c [] = (c ∷ []) ∷ []
put_first c (s ∷ rest) = (c ∷ s) ∷ rest

-- The parts of a text between its white space, empty ones included.
abbrev pub parts : Text → List Text
parts [] = [] ∷ []
parts (c ∷ s) = let rest = parts s in if is_space c then [] ∷ rest else put_first c rest

abbrev pub filled : List Text → List Text
filled [] = []
filled ([] ∷ rest) = filled rest
filled ((c ∷ s) ∷ rest) = (c ∷ s) ∷ filled rest

-- `s.split()`.
abbrev pub words : Text → List Text
words s = filled (parts s)

-- `" ".join(ws)`.
abbrev pub join_words : List Text → Text
join_words [] = []
join_words (w ∷ []) = w
join_words (w ∷ next ∷ rest) = w ++ 32 ∷ join_words (next ∷ rest)

-- `needle in s`.
abbrev pub starts_with : Text → Text → Bool
starts_with [] s = true
starts_with (c ∷ needle) [] = false
starts_with (c ∷ needle) (d ∷ s) = c == d && starts_with needle s

abbrev pub contains : Text → Text → Bool
contains needle [] = starts_with needle []
contains needle (c ∷ s) = starts_with needle (c ∷ s) || contains needle s
