-- ===== src/Prelude/Rows.antt =====
-- SQL on a table held as the list of its rows: WHERE, UPDATE, DELETE, ORDER BY and LIMIT 1.
use mathlib.Core.Path.{◌≡◌, refl, sym, ap, ◌∙◌}
use mathlib.Core.Logic.{◌⊎◌, inl, inr}
use mathlib.Core.Bool.{Bool, true, false, not}
use mathlib.Core.Option.{Option, none, some}
use mathlib.Core.List.{List, [], ◌∷◌, map}
use native.Mathlib.Omega.{arith}
use yclients_project.Prelude.Tests.{if◌then◌else◌, Bool-cases, Option-cases}
use yclients_project.Prelude.Lists.{IsIn, All, All-IsIn}

module _ {ℓ} {A : Type ℓ} where
  abbrev pub select : (A → Bool) → List A → List A
  select p [] = []
  select p (x ∷ xs) = let rest = select p xs in if p x then x ∷ rest else rest

  abbrev pub delete_where : (A → Bool) → List A → List A
  delete_where p xs = select (λ x. not (p x)) xs

  abbrev pub update_where : (A → Bool) → (A → A) → List A → List A
  update_where p f xs = map (λ x. if p x then f x else x) xs

  -- Insertion sort by a test `le a b`: the row `a` may stand before the row `b`.
  abbrev pub insert_by : (A → A → Bool) → A → List A → List A
  insert_by le x [] = x ∷ []
  insert_by le x (y ∷ ys) = let rest = insert_by le x ys in if le x y then x ∷ y ∷ ys else y ∷ rest

  abbrev pub order_by : (A → A → Bool) → List A → List A
  order_by le [] = []
  order_by le (x ∷ xs) = insert_by le x (order_by le xs)

  abbrev pub first : List A → Option A
  first [] = none
  first (x ∷ xs) = some x

module _ {A : Type 0} where
  IsIn-kept :
      (p : A → Bool) (x y : A) (xs rest : List A)
      → p y ≡ true
      → (IsIn x rest → IsIn x xs × (p x ≡ true))
      → IsIn x (y ∷ rest)
      → IsIn x (y ∷ xs) × (p x ≡ true)
  IsIn-kept p x y xs rest e ih (inl q) = (inl q, ap p (sym q) ∙ e)
  IsIn-kept p x y xs rest e ih (inr j) = let (k, h) = ih j in (inr k, h)

  pub IsIn-select :
      (p : A → Bool) (x : A) (xs : List A) → IsIn x (select p xs) → IsIn x xs × (p x ≡ true)
  IsIn-select p x [] i = absurd i
  IsIn-select p x (y ∷ xs) i = elim (Bool-cases (p y)) [
    | inl e ↦ IsIn-kept p x y xs (select p xs) e (λ j. IsIn-select p x xs j) (rw e at i)
    | inr e ↦ let (j, h) = IsIn-select p x xs (rw e at i) in (inr j, h)
  ]

  pub select-IsIn :
      (p : A → Bool) (x : A) (xs : List A) → IsIn x xs → p x ≡ true → IsIn x (select p xs)
  select-IsIn p x [] i h = absurd i
  select-IsIn p x (y ∷ xs) (inl q) h = rw (ap p q ∙ h) (inl q)
  select-IsIn p x (y ∷ xs) (inr i) h = elim (Bool-cases (p y)) [
    | inl e ↦ rw e (inr (select-IsIn p x xs i h))
    | inr e ↦ rw e (select-IsIn p x xs i h)
  ]

  pub IsIn-update :
      (p : A → Bool) (f : A → A) (y : A) (xs : List A)
      → IsIn y (update_where p f xs)
      → (x : A) × IsIn x xs × ((if p x then f x else x) ≡ y)
  IsIn-update p f y [] i = absurd i
  IsIn-update p f y (x ∷ xs) (inl q) = (x, inl refl, q)
  IsIn-update p f y (x ∷ xs) (inr i) = let (z, j, q) = IsIn-update p f y xs i in (z, inr j, q)

  pub update-IsIn :
      (p : A → Bool) (f : A → A) (x : A) (xs : List A)
      → IsIn x xs
      → IsIn (if p x then f x else x) (update_where p f xs)
  update-IsIn p f x [] i = absurd i
  update-IsIn p f x (y ∷ xs) (inl q) = inl (ap (λ z. if p z then f z else z) q)
  update-IsIn p f x (y ∷ xs) (inr i) = inr (update-IsIn p f x xs i)

module _ {A : Type 0} where
  pub first-IsIn : (x : A) (xs : List A) → first xs ≡ some x → IsIn x xs
  first-IsIn x [] h = cc
  first-IsIn x (y ∷ ys) h = inl (cc)

  head_eq : (z x : A) (zs : List A) → first (z ∷ zs) ≡ some x → z ≡ x
  head_eq z x zs h = cc

  pub first-none_lem : (x : A) (xs : List A) → first xs ≡ none → ¬ (IsIn x xs)
  first-none_lem x [] h i = i
  first-none_lem x (y ∷ ys) h i = cc

-- A test that orders the rows: any two are comparable, and the order is transitive.
pub record IsOrder {A : Type 0} (le : A → A → Bool) : Type 0 where
  pub total : (a b : A) → le a b ≡ false → le b a ≡ true
  pub trans : (a b c : A) → le a b ≡ true → le b c ≡ true → le a c ≡ true

module _ {A : Type 0} (le : A → A → Bool) where
  pub IsIn-insert_by : (x y : A) (ys : List A) → IsIn x (insert_by le y ys) → (y ≡ x) ⊎ IsIn x ys
  IsIn-insert_by x y [] i = i
  IsIn-insert_by x y (z ∷ zs) i = ground (arith, IsIn-insert_by x y zs)

  pub IsIn-order_by : (x : A) (xs : List A) → IsIn x (order_by le xs) → IsIn x xs
  IsIn-order_by x [] i = i
  IsIn-order_by x (y ∷ ys) i = elim (IsIn-insert_by x y (order_by le ys) i) [
    | inl q ↦ inl q
    | inr j ↦ inr (IsIn-order_by x ys j)
  ]

  insert_by-IsIn : (x y : A) (ys : List A) → (y ≡ x) ⊎ IsIn x ys → IsIn x (insert_by le y ys)
  insert_by-IsIn x y [] i = i
  insert_by-IsIn x y (z ∷ zs) i = ground (arith, insert_by-IsIn x y zs)

  pub order_by-IsIn : (x : A) (xs : List A) → IsIn x xs → IsIn x (order_by le xs)
  order_by-IsIn x [] i = i
  order_by-IsIn x (y ∷ ys) (inl q) = insert_by-IsIn x y (order_by le ys) (inl q)
  order_by-IsIn x (y ∷ ys) (inr i) =
      insert_by-IsIn x y (order_by le ys) (inr (order_by-IsIn x ys i))

  abbrev pub IsSorted : List A → Type 0
  IsSorted [] = Unit
  IsSorted (x ∷ xs) = All (λ y. le x y ≡ true) xs × IsSorted xs

module _ {A : Type 0} (le : A → A → Bool) where
  All-insert_by :
      (w x : A) (ys : List A)
      → le w x ≡ true
      → All (λ z. le w z ≡ true) ys
      → All (λ z. le w z ≡ true) (insert_by le x ys)
  All-insert_by w x [] h k = (h, tt)
  All-insert_by w x (y ∷ ys) h k = elim (Bool-cases (le x y)) [
    | inl e ↦ rw e (h, k)
    | inr e ↦ rw e (k.0, All-insert_by w x ys h k.1)
  ]

module _ {A : Type 0} (le : A → A → Bool) (o : IsOrder le) where
  All-weaken :
      (x y : A) (ys : List A)
      → le x y ≡ true
      → All (λ z. le y z ≡ true) ys
      → All (λ z. le x z ≡ true) ys
  All-weaken x y [] h k = tt
  All-weaken x y (z ∷ zs) h k = (o.trans x y z h k.0, All-weaken x y zs h k.1)

  insert_by-IsSorted : (x : A) (ys : List A) → IsSorted le ys → IsSorted le (insert_by le x ys)
  insert_by-IsSorted x [] h = (tt, tt)
  insert_by-IsSorted x (y ∷ ys) h = elim (Bool-cases (le x y)) [
    | inl e ↦ rw e ((e, All-weaken x y ys e h.0), h)
    | inr e ↦ rw e (All-insert_by le y x ys (o.total x y e) h.0, insert_by-IsSorted x ys h.1)
  ]

  pub order_by-IsSorted : (xs : List A) → IsSorted le (order_by le xs)
  order_by-IsSorted [] = tt
  order_by-IsSorted (x ∷ xs) = insert_by-IsSorted x (order_by le xs) (order_by-IsSorted xs)

  pub le_self : (x : A) → le x x ≡ true
  le_self x = elim (Bool-cases (le x x)) [ inl e ↦ e | inr e ↦ o.total x x e ]

  first-le :
      (x y : A) (ys : List A) → IsSorted le ys → first ys ≡ some x → IsIn y ys → le x y ≡ true
  first-le x y [] s h i = absurd i
  first-le x y (z ∷ zs) s h (inl q) = rw (← head_eq z x zs h, ← q) (le_self z)
  first-le x y (z ∷ zs) s h (inr i) =
      rw (← head_eq z x zs h) (All-IsIn (λ w. le z w ≡ true) zs s.0 i)

  -- `ORDER BY … LIMIT 1` finds a row that no other row of the table stands before.
  pub first-order_by :
      (x : A) (xs : List A)
      → first (order_by le xs) ≡ some x
      → IsIn x xs × ((y : A) → IsIn y xs → le x y ≡ true)
  first-order_by x xs h = (
    IsIn-order_by le x xs (first-IsIn x (order_by le xs) h),
    λ y i. first-le x y (order_by le xs) (order_by-IsSorted xs) h (order_by-IsIn le y xs i),
  )

  pub first-none : (x : A) (xs : List A) → first (order_by le xs) ≡ none → ¬ (IsIn x xs)
  first-none x xs h i = first-none_lem x (order_by le xs) h (order_by-IsIn le x xs i)

  -- If `x` stands first and is kept, it stands first among the rows that are kept. Rows that may
  -- stand before and behind one another are one row.
  pub first-kept :
      (x : A) (xs kept : List A)
      → first (order_by le xs) ≡ some x
      → IsIn x kept
      → ((y : A) → IsIn y kept → IsIn y xs)
      → ((y : A) → IsIn y xs → le x y ≡ true → le y x ≡ true → y ≡ x)
      → first (order_by le kept) ≡ some x
  first-kept x xs kept h i sub unique = elim (Option-cases (first (order_by le kept))) [
    | inl e ↦ absurd (first-none x kept e i)
    | inr (y, e) ↦
        (let (j, least) = first-order_by y kept e in
          let (_, below) = first-order_by x xs h in
          e ∙ ap some (unique y (sub y j) (below y (sub y j)) (least x i)))
  ]

  pub first-some : (x : A) (xs : List A) → IsIn x xs → (y : A) × (first (order_by le xs) ≡ some y)
  first-some x xs i = elim (Option-cases (first (order_by le xs))) [
    | inl e ↦ absurd (first-none x xs e i)
    | inr found ↦ found
  ]

module _ {A : Type 0} where
  pub update-IsIn_hit :
      (p : A → Bool) (f : A → A) (x : A) (xs : List A)
      → IsIn x xs
      → p x ≡ true
      → IsIn (f x) (update_where p f xs)
  update-IsIn_hit p f x xs i h = rw h at (update-IsIn p f x xs i)

  pub update-IsIn_miss :
      (p : A → Bool) (f : A → A) (x : A) (xs : List A)
      → IsIn x xs
      → p x ≡ false
      → IsIn x (update_where p f xs)
  update-IsIn_miss p f x xs i h = rw h at (update-IsIn p f x xs i)

module _ {A : Type 0} (le : A → A → Bool) (o : IsOrder le) where
  order_by-nil : (xs : List A) → ((y : A) → IsIn y xs → ⊥) → first (order_by le xs) ≡ none
  order_by-nil [] h = refl
  order_by-nil (x ∷ xs) h = absurd (h x (inl refl))

  -- A table and a part of it that holds its first row have the same first row.
  pub first-same :
      (xs kept : List A)
      → ((y : A) → IsIn y kept → IsIn y xs)
      → ((x : A) → first (order_by le xs) ≡ some x → IsIn x kept)
      → ((x y : A) → IsIn x xs → IsIn y xs → le x y ≡ true → le y x ≡ true → y ≡ x)
      → first (order_by le kept) ≡ first (order_by le xs)
  first-same xs kept sub has unique = elim (Option-cases (first (order_by le xs))) [
    | inl e ↦ order_by-nil kept (λ y i. first-none le o y xs e (sub y i)) ∙ sym e
    | inr (x, e) ↦
        (first-kept le o x xs kept e (has x e) sub
            (λ y i a b. unique x y (first-order_by le o x xs e).0 i a b)
          ∙ sym e)
  ]
