-- ===== src/Prelude/Lists.antt =====
-- Lists measured by native numbers, membership and quantifiers by recursion.
use Prim.Native.Nat.{ℕ, zero, suc}
use mathlib.Core.Path.{◌≡◌, refl, sym, ap, ◌∙◌, subst}
use mathlib.Core.Logic.{◌⊎◌, inl, inr}
use mathlib.Core.Bool.{Bool, true, false, ◌&&◌, ◌||◌}
use mathlib.Core.List.{List, [], ◌∷◌, ◌++◌, map}
use native.Mathlib.Omega.{arith}
use yclients_project.Prelude.Tests.{◌==◌, ==_iff, Bool-cases, if◌then◌else◌}

module _ {ℓ} {A : Type ℓ} where
  abbrev pub length : List A → ℕ
  length [] = 0
  length (x ∷ xs) = suc (length xs)

  abbrev pub drop : ℕ → List A → List A
  drop zero xs = xs
  drop (suc n) [] = []
  drop (suc n) (x ∷ xs) = drop n xs

  abbrev pub take : ℕ → List A → List A
  take zero xs = []
  take (suc n) [] = []
  take (suc n) (x ∷ xs) = x ∷ take n xs

  abbrev pub any : (A → Bool) → List A → Bool
  any p [] = false
  any p (x ∷ xs) = p x || any p xs

  abbrev pub all : (A → Bool) → List A → Bool
  all p [] = true
  all p (x ∷ xs) = p x && all p xs

  abbrev pub All {κ} : (A → Type κ) → List A → Type κ
  All P [] = Unit
  All P (x ∷ xs) = P x × All P xs

-- `x in xs` for a list or a set of integers.
abbrev pub elem : ℕ → List ℕ → Bool
elem a xs = any (λ x. x == a) xs

-- `list(dict.fromkeys(ids))`: the first occurrence of each id, in order.
abbrev pub distinct : List ℕ → List ℕ → List ℕ
distinct seen [] = []
distinct seen (x ∷ xs) = let rest = distinct (x ∷ seen) xs in if elem x seen then rest else x ∷ rest

-- Sets of integers as lists: `<=`, `&` as a test, and `-`.
abbrev pub is_subset : List ℕ → List ℕ → Bool
is_subset xs ys = all (λ x. elem x ys) xs

abbrev pub intersects : List ℕ → List ℕ → Bool
intersects xs ys = any (λ x. elem x ys) xs

abbrev pub is_empty {ℓ} : {A : Type ℓ} → List A → Bool
is_empty [] = true
is_empty (x ∷ xs) = false

-- Membership that can be taken apart in a proof.
abbrev pub IsIn : {A : Type 0} → A → List A → Type 0
IsIn a [] = ⊥
IsIn a (x ∷ xs) = (x ≡ a) ⊎ IsIn a xs

pub All-IsIn {κ} : {A : Type 0} (P : A → Type κ) {x : A} (xs : List A) → All P xs → IsIn x xs → P x
All-IsIn P [] h i = absurd i
All-IsIn P (y ∷ xs) h (inl e) = subst P e h.0
All-IsIn P (y ∷ xs) h (inr i) = All-IsIn P xs h.1 i

pub All-intro {κ} :
    {A : Type 0} (P : A → Type κ) (xs : List A) → ((x : A) → IsIn x xs → P x) → All P xs
All-intro P [] h = tt
All-intro P (y ∷ xs) h = (h y (inl refl), All-intro P xs (λ x i. h x (inr i)))

pub elem→IsIn : (a : ℕ) (xs : List ℕ) → elem a xs ≡ true → IsIn a xs
elem→IsIn a [] h = cc
elem→IsIn a (x ∷ xs) h = elim (Bool-cases (x == a)) [
  | inl e ↦ inl ((==_iff x a).0 e)
  | inr e ↦ inr (elem→IsIn a xs (ground arith))
]

pub IsIn→elem : (a : ℕ) (xs : List ℕ) → IsIn a xs → elem a xs ≡ true
IsIn→elem a [] i = absurd i
IsIn→elem a (x ∷ xs) (inl e) = ground arith
IsIn→elem a (x ∷ xs) (inr i) = ground (arith, IsIn→elem a xs i)

pub elem_not : (a : ℕ) (xs : List ℕ) → elem a xs ≡ false → ¬ (IsIn a xs)
elem_not a xs h i = cc (IsIn→elem a xs i)

and_left : (a b : Bool) → (a && b) ≡ true → a ≡ true
and_left a b h = ground arith

and_right : (a b : Bool) → (a && b) ≡ true → b ≡ true
and_right a b h = ground arith

-- `map` and membership.
pub IsIn-map :
    {A B : Type 0} (f : A → B) (y : B) (xs : List A)
    → IsIn y (map f xs)
    → (x : A) × IsIn x xs × (f x ≡ y)
IsIn-map f y [] i = absurd i
IsIn-map f y (x ∷ xs) (inl e) = (x, inl refl, e)
IsIn-map f y (x ∷ xs) (inr i) = let (z, j, e) = IsIn-map f y xs i in (z, inr j, e)

pub map-IsIn : {A B : Type 0} (f : A → B) (x : A) (xs : List A) → IsIn x xs → IsIn (f x) (map f xs)
map-IsIn f x [] i = absurd i
map-IsIn f x (y ∷ ys) (inl e) = inl (ap f e)
map-IsIn f x (y ∷ ys) (inr i) = inr (map-IsIn f x ys i)

-- `all` of a Boolean test, read and proved row by row.
pub all-IsIn :
    {A : Type 0} (p : A → Bool) (x : A) (xs : List A) → all p xs ≡ true → IsIn x xs → p x ≡ true
all-IsIn p x [] h i = absurd i
all-IsIn p x (y ∷ ys) h (inl e) = ap p (sym e) ∙ and_left (p y) (all p ys) h
all-IsIn p x (y ∷ ys) h (inr i) = all-IsIn p x ys (and_right (p y) (all p ys) h) i

pub all-intro :
    {A : Type 0} (p : A → Bool) (xs : List A) → ((x : A) → IsIn x xs → p x ≡ true) → all p xs ≡ true
all-intro p [] h = refl
all-intro p (y ∷ ys) h = rw (h y (inl refl)) (all-intro p ys (λ x i. h x (inr i)))

pub IsIn-append : {A : Type 0} (x : A) (xs ys : List A) → IsIn x (xs ++ ys) → IsIn x xs ⊎ IsIn x ys
IsIn-append x [] ys i = inr i
IsIn-append x (y ∷ xs) ys (inl e) = inl (inl e)
IsIn-append x (y ∷ xs) ys (inr i) = elim (IsIn-append x xs ys i) [
  | inl j ↦ inl (inr j)
  | inr j ↦ inr j
]

pub append-IsIn_left : {A : Type 0} (x : A) (xs ys : List A) → IsIn x xs → IsIn x (xs ++ ys)
append-IsIn_left x [] ys i = absurd i
append-IsIn_left x (y ∷ xs) ys (inl e) = inl e
append-IsIn_left x (y ∷ xs) ys (inr i) = inr (append-IsIn_left x xs ys i)

pub append-IsIn_last : {A : Type 0} (x : A) (xs : List A) → IsIn x (xs ++ x ∷ [])
append-IsIn_last x [] = inl refl
append-IsIn_last x (y ∷ xs) = inr (append-IsIn_last x xs)

pub subset-IsIn : (a : ℕ) (xs ys : List ℕ) → is_subset xs ys ≡ true → IsIn a xs → IsIn a ys
subset-IsIn a xs ys h i = elem→IsIn a ys (all-IsIn (λ x. elem x ys) a xs h i)

pub subset-intro : (xs ys : List ℕ) → ((a : ℕ) → IsIn a xs → IsIn a ys) → is_subset xs ys ≡ true
subset-intro xs ys h = all-intro (λ x. elem x ys) xs (λ a i. IsIn→elem a ys (h a i))

distinct_head :
    (a x : ℕ) (seen xs : List ℕ) → x ≡ a → elem a seen ≡ false → IsIn a (distinct seen (x ∷ xs))
distinct_head a x seen xs e h = rw (ap (λ z. elem z seen) e ∙ h) (inl e)

distinct_tail :
    (a x : ℕ) (seen xs : List ℕ) → IsIn a (distinct (x ∷ seen) xs) → IsIn a (distinct seen (x ∷ xs))
distinct_tail a x seen xs k = elim (Bool-cases (elem x seen)) [
  | inl s ↦ rw s k
  | inr s ↦ rw s (inr k)
]

pub distinct-IsIn :
    (a : ℕ) (seen xs : List ℕ) → IsIn a xs → elem a seen ≡ false → IsIn a (distinct seen xs)
distinct-IsIn a seen [] i h = absurd i
distinct-IsIn a seen (x ∷ xs) (inl e) h = distinct_head a x seen xs e h
distinct-IsIn a seen (x ∷ xs) (inr i) h = elim (Bool-cases (x == a)) [
  | inl q ↦ distinct_head a x seen xs ((==_iff x a).0 q) h
  | inr q ↦ distinct_tail a x seen xs (distinct-IsIn a (x ∷ seen) xs i (ground arith))
]

the_cons : {A : Type 0} (a x : A) (xs : List A) → IsIn a (x ∷ xs) → (x ≡ a) ⊎ IsIn a xs
the_cons a x xs i = i

pub IsIn-distinct : (a : ℕ) (seen xs : List ℕ) → IsIn a (distinct seen xs) → IsIn a xs
IsIn-distinct a seen [] i = absurd i
IsIn-distinct a seen (x ∷ xs) i = elim (Bool-cases (elem x seen)) [
  | inl e ↦ inr (IsIn-distinct a (x ∷ seen) xs (rw e at i))
  | inr e ↦ elim (the_cons a x (distinct (x ∷ seen) xs) (rw e at i)) [
    | inl q ↦ inl q
    | inr j ↦ inr (IsIn-distinct a (x ∷ seen) xs j)
  ]
]

pub append-IsIn_right : {A : Type 0} (x : A) (xs ys : List A) → IsIn x ys → IsIn x (xs ++ ys)
append-IsIn_right x [] ys i = i
append-IsIn_right x (y ∷ xs) ys i = inr (append-IsIn_right x xs ys i)
