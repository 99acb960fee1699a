-- ===== src/Prelude/Keyed.antt =====
-- Tables with an integer primary key drawn from a sequence.
use mathlib.Core.Path.{◌≡◌, sym, ap, ◌∙◌}
use mathlib.Core.Logic.{inl, inr}
use mathlib.Core.Bool.{Bool}
use mathlib.Core.List.{List, [], ◌∷◌, ◌++◌}
use Prim.Native.Nat.{ℕ, ◌+◌, ◌<◌}
use native.Mathlib.Omega.{arith}
use yclients_project.Prelude.Tests.{if◌then◌else◌, Bool-cases}
use yclients_project.Prelude.Lists.{IsIn, IsIn-append}
use yclients_project.Prelude.Rows.{select, update_where, IsIn-select, IsIn-update, update-IsIn}

-- Rows with the same key are one row.
abbrev pub IsKeyed : {A : Type 0} → (A → ℕ) → List A → Type 0
IsKeyed key rows = (a b : _) → IsIn a rows → IsIn b rows → key a ≡ key b → a ≡ b

-- The keys are distinct, and all below the next value of the sequence.
pub record IsTable {A : Type 0} (key : A → ℕ) (rows : List A) (next : ℕ) : Type 0 where
  pub keyed : IsKeyed key rows
  pub below : (row : A) → IsIn row rows → key row < next

module _ {A : Type 0} (key : A → ℕ) where
  -- A row with this key is there.
  abbrev pub HasKey : ℕ → List A → Type 0
  HasKey id rows = (row : A) × IsIn row rows × (key row ≡ id)

  pub IsTable-select :
      (p : A → Bool) (rows : List A) (n : ℕ) → IsTable key rows n → IsTable key (select p rows) n
  IsTable-select p rows n t = record {
    keyed = λ a b i j e. t.keyed a b (IsIn-select p a rows i).0 (IsIn-select p b rows j).0 e;
    below = λ a i. t.below a (IsIn-select p a rows i).0;
  }

  fresh :
      (rows : List A) (n : ℕ) (new a b : A)
      → IsTable key rows n
      → key new ≡ n
      → IsIn a (rows ++ new ∷ [])
      → IsIn b (rows ++ new ∷ [])
      → key a ≡ key b
      → a ≡ b
  fresh rows n new a b t e i j same = elim (IsIn-append a rows (new ∷ []) i) [
    | inl k ↦ elim (IsIn-append b rows (new ∷ []) j) [
      | inl l ↦ t.keyed a b k l same
      | inr (inl q) ↦ absurd (omega (arith, t.below a k, ap key q))
      | inr (inr l) ↦ absurd l
    ]
    | inr (inl p) ↦ elim (IsIn-append b rows (new ∷ []) j) [
      | inl l ↦ absurd (omega (arith, t.below b l, ap key p))
      | inr (inl q) ↦ sym p ∙ q
      | inr (inr l) ↦ absurd l
    ]
    | inr (inr k) ↦ absurd k
  ]

  pub IsTable-append :
      (rows : List A) (n : ℕ) (new : A)
      → IsTable key rows n
      → key new ≡ n
      → IsTable key (rows ++ new ∷ []) (n + 1)
  IsTable-append rows n new t e = record {
    keyed = λ a b i j same. fresh rows n new a b t e i j same;
    below = λ a i. elim (IsIn-append a rows (new ∷ []) i) [
      | inl k ↦ omega (arith, t.below a k)
      | inr (inl q) ↦ omega (arith, ap key q)
      | inr (inr k) ↦ absurd k
    ];
  }

  -- A write to some rows that leaves their keys alone.
  module _ (p : A → Bool) (f : A → A) (same : (row : A) → key (f row) ≡ key row) where
    pub write_key : (row : A) → key (if p row then f row else row) ≡ key row
    write_key row = elim (Bool-cases (p row)) [ inl e ↦ rw e (same row) | inr e ↦ rw e ]

    pub IsTable-update :
        (rows : List A) (n : ℕ) → IsTable key rows n → IsTable key (update_where p f rows) n
    IsTable-update rows n t = record {
      keyed = λ a b i j e.
          let (x, k, q) = IsIn-update p f a rows i in
          let (y, l, r) = IsIn-update p f b rows j in
          let ids : key x ≡ key y =
            sym (write_key x) ∙ ap key q ∙ e ∙ sym (ap key r) ∙ write_key y in
          sym q ∙ ap (λ z. if p z then f z else z) (t.keyed x y k l ids) ∙ r;
      below = λ a i.
          let (x, k, q) = IsIn-update p f a rows i in
          omega (arith, t.below x k, sym (ap key q) ∙ write_key x);
    }

    pub HasKey-update :
        (id : ℕ) (rows : List A) → HasKey id rows → HasKey id (update_where p f rows)
    HasKey-update id rows (row, i, e) =
        ((if p row then f row else row), update-IsIn p f row rows i, write_key row ∙ e)
