-- ===== src/Prelude/Cuts.antt =====
-- The first rows of a list and the rows behind them, and how many rows a query leaves.
use Prim.Native.Nat.{ℕ, zero, suc, ◌+◌, ◌≤◌, ◌<◌}
use mathlib.Core.Path.{◌≡◌, refl, sym, ap, ◌∙◌}
use mathlib.Core.Logic.{◌⊎◌, inl, inr}
use mathlib.Core.Bool.{Bool, true}
use mathlib.Core.List.{List, [], ◌∷◌}
use native.Mathlib.Omega.{arith}
use yclients_project.Prelude.Tests.{Bool-cases}
use yclients_project.Prelude.Lists.{IsIn, length, take, drop, All-IsIn}
use yclients_project.Prelude.Rows.{select, insert_by, order_by, IsSorted}

pub take_or_drop :
    {A : Type 0} (n : ℕ) (x : A) (xs : List A) → IsIn x xs → IsIn x (take n xs) ⊎ IsIn x (drop n xs)
take_or_drop zero x xs i = inr i
take_or_drop (suc n) x [] i = inl i
take_or_drop (suc n) x (y ∷ ys) (inl e) = inl (inl e)
take_or_drop (suc n) x (y ∷ ys) (inr i) = elim (take_or_drop n x ys i) [
  | inl j ↦ inl (inr j)
  | inr j ↦ inr j
]

pub drop-IsIn : {A : Type 0} (n : ℕ) (x : A) (xs : List A) → IsIn x (drop n xs) → IsIn x xs
drop-IsIn zero x xs i = i
drop-IsIn (suc n) x [] i = i
drop-IsIn (suc n) x (y ∷ ys) i = inr (drop-IsIn n x ys i)

pub length-take : {A : Type 0} (n : ℕ) (xs : List A) → length (take n xs) ≤ n
length-take zero xs = ground arith
length-take (suc n) [] = ground arith
length-take (suc n) (x ∷ xs) = ground (arith, length-take n xs)

-- In a sorted list, each of the first rows may stand before each of the others.
pub take-le-drop :
    {A : Type 0} (le : A → A → Bool) (n : ℕ) (x y : A) (xs : List A)
    → IsSorted le xs
    → IsIn x (take n xs)
    → IsIn y (drop n xs)
    → le x y ≡ true
take-le-drop le zero x y xs s i j = absurd i
take-le-drop le (suc n) x y [] s i j = absurd i
take-le-drop le (suc n) x y (z ∷ zs) s (inl e) j =
    ap (λ w. le w y) (sym e) ∙ All-IsIn (λ w. le z w ≡ true) zs s.0 (drop-IsIn n y zs j)
take-le-drop le (suc n) x y (z ∷ zs) s (inr i) j = take-le-drop le n x y zs s.1 i j

pub length-insert_by :
    {A : Type 0} (le : A → A → Bool) (x : A) (xs : List A)
    → length (insert_by le x xs) ≡ 1 + length xs
length-insert_by le x [] = refl
length-insert_by le x (y ∷ ys) = ground (arith, length-insert_by le x ys)

pub length-order_by :
    {A : Type 0} (le : A → A → Bool) (xs : List A) → length (order_by le xs) ≡ length xs
length-order_by le [] = refl
length-order_by le (x ∷ xs) =
    ground (arith, length-insert_by le x (order_by le xs), length-order_by le xs)

pub drop-length : {A : Type 0} (n : ℕ) (x : A) (xs : List A) → IsIn x (drop n xs) → n < length xs
drop-length zero x [] i = absurd i
drop-length zero x (y ∷ ys) i = ground arith
drop-length (suc n) x [] i = absurd i
drop-length (suc n) x (y ∷ ys) i = ground (arith, drop-length n x ys i)

pub select-select :
    {A : Type 0} (p q : A → Bool) (xs : List A)
    → ((x : A) → p x ≡ true → q x ≡ true)
    → select p (select q xs) ≡ select p xs
select-select p q [] h = refl
select-select p q (x ∷ xs) h = elim (Bool-cases (q x)) [
  | inl e ↦ rw e (ground (arith, select-select p q xs h))
  | inr e ↦ ground (arith, select-select p q xs h, h x)
]
