-- ===== src/Portal/Staff/Later.antt =====
-- portal_staff_sync.py: what serving a branch keeps of a row.
use yclients_project.Prelude.{
  ℕ, ◌≤◌, ◌≡◌, refl, ap, ◌∙◌, true, false, Option, none, some, List, [], ◌∷◌, arith, inl, inr, ◌==◌,
  IsIn, is_empty,
}
use yclients_project.Portal.Ownership.{holds}
use yclients_project.Portal.Staff.{Staff, is_mirror_row, is_crm_row, max_id}

-- A later state of a row: whose it is and where is the same, and it is not fired by serving a
-- branch.
pub record NextOf (a b : Staff) : Type 0 where
  pub id : a.id ≡ b.id
  pub external_id : a.external_id ≡ b.external_id
  pub source_type : a.source_type ≡ b.source_type
  pub company_id : a.company_id ≡ b.company_id
  pub portal_user_id : a.portal_user_id ≡ b.portal_user_id
  pub live : b.fired ≡ 0 → a.fired ≡ 0

pub self-NextOf : (a : Staff) → NextOf a a
self-NextOf a = record {
  id = refl;
  external_id = refl;
  source_type = refl;
  company_id = refl;
  portal_user_id = refl;
  live = λ h. h;
}

pub trans-NextOf : (a b c : Staff) → NextOf a b → NextOf b c → NextOf a c
trans-NextOf a b c n m = record {
  id = n.id ∙ m.id;
  external_id = n.external_id ∙ m.external_id;
  source_type = n.source_type ∙ m.source_type;
  company_id = n.company_id ∙ m.company_id;
  portal_user_id = n.portal_user_id ∙ m.portal_user_id;
  live = λ h. n.live (m.live h);
}

pub mirror_next : (a b : Staff) → NextOf a b → is_mirror_row a ≡ is_mirror_row b
unfolding is_mirror_row
mirror_next a b s = rw (s.source_type, s.portal_user_id, s.external_id) refl

pub crm_next :
    (user_id : ℕ) (a b : Staff) → NextOf a b → is_crm_row user_id a ≡ is_crm_row user_id b
crm_next user_id a b s = rw (mirror_next a b s, s.portal_user_id) refl

pub same_number : (a : ℕ) → (a == a) ≡ true
same_number a = ground arith

pub holds_lem : (a : Option ℕ) (n : ℕ) → holds a n ≡ true → a ≡ some n
holds_lem none n h = cc
holds_lem (some m) n h = ap some (ground arith)

pub max_id-IsIn : (row : Staff) (rows : List Staff) → IsIn row rows → row.id ≤ max_id rows
max_id-IsIn row [] i = absurd i
max_id-IsIn row (r ∷ rows) (inl e) = omega (arith, ap (λ (x : Staff). x.id) e)
max_id-IsIn row (r ∷ rows) (inr i) = omega (arith, max_id-IsIn row rows i)

pub nonempty : (a : ℕ) (xs : List ℕ) → IsIn a xs → is_empty xs ≡ false
nonempty a [] i = absurd i
nonempty a (x ∷ xs) i = refl
