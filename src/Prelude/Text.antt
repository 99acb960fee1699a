-- ===== src/Prelude/Text.antt =====
-- Python's `str` as the list of its code points, with the methods that the modelled code calls.
use Prim.Native.Nat.{ℕ, ◌+◌}
use Prim.Native.Char.{code}
use Prim.Native.String.{String}
use mathlib.Core.Path.{◌≡◌, refl, ap, ap₂}
use mathlib.Core.Logic.{inl, inr}
use mathlib.Core.Bool.{Bool, true, false, not, ◌&&◌, ◌||◌}
use mathlib.Core.Option.{Option, none, some}
use mathlib.Core.List.{List, [], ◌∷◌, ◌++◌, map}
use native.Mathlib.Omega.{arith}
use yclients_project.Prelude.Tests.{◌==◌, leb, if◌then◌else◌, ==_iff, Bool-cases}
use yclients_project.Prelude.Lists.{any, all, is_empty}

abbrev pub Text : Type 0
Text = List ℕ

abbrev pub codes : String → Text
codes String.[] = []
codes (String.◌∷◌ c s) = code c ∷ codes s

abbrev pub text_eq : Text → Text → Bool
text_eq [] [] = true
text_eq (a ∷ s) (b ∷ t) = (a == b) && text_eq s t
text_eq _ _ = false

-- The code points that `str.isspace` accepts.
unfoldable pub is_space : ℕ → Bool
is_space c =
    leb 9 c && leb c 13
    || leb 28 c && leb c 32
    || c == 133
    || c == 160
    || c == 5760
    || leb 8192 c && leb c 8202
    || c == 8232
    || c == 8233
    || c == 8239
    || c == 8287
    || c == 12288

lstrip : Text → Text
unfolding is_space
lstrip [] = []
lstrip (c ∷ s) = let rest = lstrip s in if is_space c then rest else c ∷ s

rstrip : Text → Text
unfolding is_space
rstrip [] = []
rstrip (c ∷ s) = let rest = rstrip s in if is_space c && is_empty rest then [] else c ∷ rest

unfoldable pub strip : Text → Text
unfolding lstrip rstrip
strip s = rstrip (lstrip s)

-- `s.replace(c, r)` and `s.replace(c, r, 1)` for a one-character `c`.
unfoldable pub replace_all : ℕ → Text → Text → Text
replace_all c r [] = []
replace_all c r (d ∷ s) = let rest = replace_all c r s in if d == c then r ++ rest else d ∷ rest

unfoldable pub replace_first : ℕ → Text → Text → Text
replace_first c r [] = []
replace_first c r (d ∷ s) = let rest = replace_first c r s in if d == c then r ++ s else d ∷ rest

-- `str.lower` on the ASCII letters; other letters are kept.
unfoldable pub lower : Text → Text
lower s = map (λ c. if leb 65 c && leb c 90 then c + 32 else c) s

abbrev pub has_char : ℕ → Text → Bool
has_char c s = any (λ d. d == c) s

-- `s or t`: the empty text counts as missing.
abbrev pub or_text : Option Text → Option Text → Option Text
or_text none t = t
or_text (some []) t = t
or_text (some (c ∷ s)) t = some (c ∷ s)

pub text_eq_refl : (s : Text) → text_eq s s ≡ true
text_eq_refl [] = refl
text_eq_refl (a ∷ s) = ground (arith, text_eq_refl s)

pub text_eq→≡ : (s t : Text) → text_eq s t ≡ true → s ≡ t
text_eq→≡ [] [] h = refl
text_eq→≡ [] (b ∷ t) h = cc
text_eq→≡ (a ∷ s) [] h = cc
text_eq→≡ (a ∷ s) (b ∷ t) h = elim (Bool-cases (a == b)) [
  | inl e ↦ ap₂ ◌∷◌ ((==_iff a b).0 e) (text_eq→≡ s t (ground arith))
  | inr e ↦ ground arith
]

rstrip_lem : (s : Text) → all (λ c. not (is_space c)) s ≡ true → rstrip s ≡ s
unfolding rstrip
rstrip_lem [] h = refl
rstrip_lem (c ∷ s) h = ground (arith, rstrip_lem s)

lstrip_lem : (s : Text) → all (λ c. not (is_space c)) s ≡ true → lstrip s ≡ s
unfolding lstrip
lstrip_lem [] h = refl
lstrip_lem (c ∷ s) h = ground arith

-- A text with no space in it is stripped of nothing.
pub strip_lem : (s : Text) → all (λ c. not (is_space c)) s ≡ true → strip s ≡ s
unfolding strip
strip_lem s h = rw (lstrip_lem s h) (rstrip_lem s h)

pub replace_all_lem : (c : ℕ) (r s : Text) → has_char c s ≡ false → replace_all c r s ≡ s
unfolding replace_all
replace_all_lem c r [] h = refl
replace_all_lem c r (d ∷ s) h = ground (arith, replace_all_lem c r s)

pub text_eq_comm : (s t : Text) → text_eq s t ≡ text_eq t s
text_eq_comm [] [] = refl
text_eq_comm [] (b ∷ t) = refl
text_eq_comm (a ∷ s) [] = refl
text_eq_comm (a ∷ s) (b ∷ t) = ground (arith, text_eq_comm s t)

-- A text that equals two others makes them equal.
pub text_eq_congr : (s t u : Text) → text_eq s t ≡ true → text_eq s u ≡ text_eq t u
text_eq_congr s t u h = ap (λ r. text_eq r u) (text_eq→≡ s t h)
