-- ===== src/Tests/Deps.antt =====
-- A portal of one manager and one barber, and the theorems of Auth.Deps at it.
use yclients_project.Prelude.{
  ℕ, ◌≡◌, ◌≢◌, refl, sym, ◌∙◌, arith, inl, inr, true, false, none, some, [], ◌∷◌,
}
use yclients_project.Prelude.Keyed.{IsKeyed}
use yclients_project.Prelude.Rows.{select}
use yclients_project.Prelude.Text.{codes}
use yclients_project.Auth.{barber, ok}
use yclients_project.Auth.Sessions.{User, one_or_none, revoke_user_sessions}
use yclients_project.Auth.Sessions.Csrf.{enforce_csrf}
use yclients_project.Auth.Tenancy.{Portal, StaffRow, is_row_of, load_user_access_branch_ids}
use yclients_project.Auth.Deps.{
  Claims, absent, Decode, Principal, AuthRequest, AuthConfig, user_state, access_of, admit_user,
  admit_claims, user_from_token, open_paths, extract_access_token, require_auth,
}
use yclients_project.Auth.Deps.Revoked.{
  with_store, bump, revoke_user_sessions_ends, revoke_keeps_others, bump_user_token_version_ends,
}
use yclients_project.Auth.Deps.Context.{
  IsGranted, require_auth-IsGranted, IsClamp, access_of-IsClamp,
}
use yclients_project.Tests.Sessions.{holder, session, other, store}

abbrev clerk : User
clerk = record holder { id = 9; role = barber }

abbrev left_branch : StaffRow
left_branch = record { id = 3; company_id = some 1; portal_user_id = some 9; fired = false }

abbrev present_branch : StaffRow
present_branch = record { id = 4; company_id = some 2; portal_user_id = some 9; fired = false }

abbrev portal : Portal
portal = record {
  users = holder ∷ [];
  tokens = session ∷ other ∷ [];
  branches = record { portal_account_id = 1; company_id = 2 } ∷ [];
  user_branches = record { user_id = 9; company_id = 2 } ∷ [];
  staff = left_branch ∷ present_branch ∷ [];
  visibility = [];
}

abbrev claims : Claims
claims = record { sub = some 7; sid = some 1; tv = absent }

abbrev decode : Decode
decode token = some claims

abbrev principal : Principal
principal = record { user = holder; access = access_of none holder portal }

abbrev request : AuthRequest
request = record {
  path = codes "/dashboard";
  authorization = none;
  x_api_key = none;
  x_portal_account_id = none;
  csrf = record {
    method = codes "GET";
    access_cookie = some (codes "t");
    refresh_cookie = none;
    csrf_cookie = none;
    csrf_header = none;
  };
}

abbrev config : AuthConfig
config = record { api_key = codes "k"; auth_require_login = true; is_production = true }

accepted : user_from_token decode none 6 portal (codes "t") ≡ ok principal
unfolding user_from_token admit_claims admit_user one_or_none
accepted = refl

abbrev after_revoke : Portal
after_revoke = with_store (revoke_user_sessions 8 store) portal

accepted_after :
    user_from_token decode none 6 after_revoke (codes "t")
    ≡ ok (record { user = holder; access = access_of none holder after_revoke })
unfolding user_from_token admit_claims admit_user one_or_none revoke_user_sessions
accepted_after = refl

revoke_user_sessions_ends_example : holder.id ≢ 8
revoke_user_sessions_ends_example =
    revoke_user_sessions_ends decode none 6 portal (codes "t") 8 store
      (record { user = holder; access = access_of none holder after_revoke }) accepted_after

revoke_keeps_others_example :
    user_from_token decode none 6 after_revoke (codes "t")
    ≡ user_from_token decode none 6 (with_store store portal) (codes "t")
revoke_keeps_others_example =
    revoke_keeps_others decode none 6 (codes "t") 8 store portal claims refl (λ e. ground arith)

one_user : IsKeyed (λ (u : User). u.id) portal.users
one_user a b (inl p) (inl q) e = sym p ∙ q
one_user a b (inl p) (inr j) e = absurd j
one_user a b (inr i) j e = absurd i

bump_user_token_version_ends_example :
    user_from_token decode (some 3) 7 (bump 7 portal) (codes "t") ≢ ok principal
bump_user_token_version_ends_example =
    bump_user_token_version_ends decode none (some 3) 6 7 portal (codes "t") principal one_user
      accepted principal

granted : require_auth decode config 6 portal request ≡ ok (user_state principal)
unfolding require_auth open_paths extract_access_token enforce_csrf user_from_token admit_claims
    admit_user one_or_none
granted = refl

require_auth-IsGranted_example : IsGranted decode config 6 portal request (user_state principal)
require_auth-IsGranted_example =
    require_auth-IsGranted decode config 6 portal request (user_state principal) granted

access_of-IsClamp_example :
    (id : ℕ) × ((access_of none clerk portal).staff_id ≡ some id)
    × IsClamp (load_user_access_branch_ids clerk portal) (select (is_row_of 9) portal.staff) id
access_of-IsClamp_example = access_of-IsClamp none clerk portal left_branch refl (inl refl) refl
