-- ===== src/Common/Texts.antt =====
-- A JavaScript string as the list of its UTF-16 code units: `===` and `<`.
use Prim.Native.Nat.{ℕ, ◌+◌, ◌-◌, ◌*◌}
use Prim.Native.Char.{code}
use Prim.Native.String.{String}
use mathlib.Core.Path.{◌≡◌, refl}
use mathlib.Core.Logic.{◌↔◌, ◌≢◌}
use mathlib.Core.Bool.{Bool, not, true, false, ◌&&◌, ◌||◌}
use mathlib.Core.Option.{Option, none, some}
use mathlib.Core.List.{List, [], ◌∷◌, ◌++◌}
use native.Mathlib.Omega.{arith}
use meshezia.Common.Tests.{ltb, leb, ◌==◌, if◌then◌else◌}

abbrev pub Text : Type 0
Text = List ℕ

-- The code units of a literal of the Basic Multilingual Plane.
abbrev pub codes : String → Text
codes String.[] = []
codes (String.◌∷◌ c s) = code c ∷ codes s

unfoldable pub text_eq : Text → Text → Bool
text_eq [] [] = true
text_eq [] (y ∷ ys) = false
text_eq (x ∷ xs) [] = false
text_eq (x ∷ xs) (y ∷ ys) = x == y && text_eq xs ys

-- `a < b` of two strings: by the first code unit in which they differ, a prefix first.
unfoldable pub text_lt : Text → Text → Bool
text_lt [] [] = false
text_lt [] (y ∷ ys) = true
text_lt (x ∷ xs) [] = false
text_lt (x ∷ xs) (y ∷ ys) = ltb x y || (x == y && text_lt xs ys)

pub text_eq_iff : (a b : Text) → (text_eq a b ≡ true) ↔ (a ≡ b)
unfolding text_eq
text_eq_iff [] [] = ground arith
text_eq_iff [] (y ∷ ys) = ground arith
text_eq_iff (x ∷ xs) [] = ground arith
text_eq_iff (x ∷ xs) (y ∷ ys) = ground (arith, text_eq_iff xs ys)

pub text_eq_refl : (a : Text) → text_eq a a ≡ true
text_eq_refl a = (text_eq_iff a a).1 refl

pub text_eq_sym : (a b : Text) → text_eq a b ≡ text_eq b a
text_eq_sym a b = ground (arith, text_eq_iff a b, text_eq_iff b a)

pub text_ne : (a b : Text) → a ≢ b → text_eq a b ≡ false
text_ne a b h = ground (arith, text_eq_iff a b)

pub text_lt_asym : (a b : Text) → text_lt a b ≡ true → text_lt b a ≡ false
unfolding text_lt
text_lt_asym [] [] h = refl
text_lt_asym [] (y ∷ ys) h = refl
text_lt_asym (x ∷ xs) [] h = cc
text_lt_asym (x ∷ xs) (y ∷ ys) h = ground (arith, text_lt_asym xs ys)

-- Two strings neither of which is below the other are the same.
pub text_lt_total : (a b : Text) → text_lt a b ≡ false → text_lt b a ≡ false → a ≡ b
unfolding text_lt
text_lt_total [] [] h k = refl
text_lt_total [] (y ∷ ys) h k = cc
text_lt_total (x ∷ xs) [] h k = cc
text_lt_total (x ∷ xs) (y ∷ ys) h k = ground (arith, text_lt_total xs ys)

-- One more unit at the front of the first part.
abbrev pub push : ℕ → List Text → List Text
push c [] = (c ∷ []) ∷ []
push c (p ∷ ps) = (c ∷ p) ∷ ps

-- `s.split(sep)` for a separator of one unit.
unfoldable pub split : ℕ → Text → List Text
split sep [] = [] ∷ []
split sep (c ∷ cs) = let rest = split sep cs in if c == sep then [] ∷ rest else push c rest

-- `Number(s)` of decimal digits, behind digits that were read already; `none` is any other text.
unfoldable pub number_of : ℕ → Text → Option ℕ
number_of n [] = some n
number_of n (c ∷ cs) =
    let rest = number_of (n * 10 + (c - b'0')) cs in if leb b'0' c && leb c b'9' then rest else none

-- No unit of the text is the separator.
abbrev pub lacks : ℕ → Text → Bool
lacks sep [] = true
lacks sep (c ∷ cs) = not (c == sep) && lacks sep cs

pub split-lacks : (sep : ℕ) (t : Text) → lacks sep t ≡ true → split sep t ≡ t ∷ []
unfolding split
split-lacks sep [] h = refl
split-lacks sep (c ∷ cs) h = ground (arith, split-lacks sep cs)

-- The text up to the first separator is the first part.
pub split-append :
    (sep : ℕ) (t rest : Text)
    → lacks sep t ≡ true
    → split sep (t ++ sep ∷ rest) ≡ t ∷ split sep rest
unfolding split
split-append sep [] rest h = ground arith
split-append sep (c ∷ cs) rest h = ground (arith, split-append sep cs rest)

-- `parts.join(sep)` for a separator of one unit.
abbrev pub join : ℕ → List Text → Text
join sep [] = []
join sep (t ∷ []) = t
join sep (t ∷ u ∷ rest) = t ++ sep ∷ join sep (u ∷ rest)

abbrev pub all_lack : ℕ → List Text → Bool
all_lack sep [] = true
all_lack sep (t ∷ rest) = lacks sep t && all_lack sep rest

-- Parts that are joined are found again.
pub split-join :
    (sep : ℕ) (t : Text) (rest : List Text)
    → all_lack sep (t ∷ rest) ≡ true
    → split sep (join sep (t ∷ rest)) ≡ t ∷ rest
split-join sep t [] h = split-lacks sep t (ground arith)
split-join sep t (u ∷ rest) h =
    ground (arith, split-append sep t (join sep (u ∷ rest)), split-join sep u rest)
