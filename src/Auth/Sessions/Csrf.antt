-- ===== src/Auth/Sessions/Csrf.antt =====
-- auth_sessions.py: the double-submit check of `enforce_csrf`.
use yclients_project.Prelude.{
  ◌≡◌, ◌≢◌, refl, sym, ap, Bool, true, false, not, ◌&&◌, ◌||◌, Option, none, some, [],
  if◌then◌else◌, is_empty, arith,
}
use yclients_project.Prelude.Text.{Text, codes, text_eq, text_eq→≡}
use yclients_project.Auth.{Reply, ok, refuse}
use yclients_project.Auth.Sessions.Device.{is_blank, secure_equals}

-- The parts of a request that the CSRF check reads.
pub record CsrfRequest : Type 0 where
  pub method : Text
  pub access_cookie : Option Text
  pub refresh_cookie : Option Text
  pub csrf_cookie : Option Text
  pub csrf_header : Option Text

abbrev pub is_safe_method : Text → Bool
is_safe_method method =
    text_eq method (codes "GET")
    || text_eq method (codes "HEAD")
    || text_eq method (codes "OPTIONS")

abbrev pub tokens_agree : Option Text → Option Text → Bool
tokens_agree none header = false
tokens_agree (some cookie) none = false
tokens_agree (some cookie) (some header) =
    not (is_empty cookie) && not (is_empty header) && secure_equals (some cookie) header

unfoldable pub enforce_csrf : CsrfRequest → Reply Unit
enforce_csrf request =
    if is_safe_method request.method
    then ok tt
    else if is_blank request.access_cookie && is_blank request.refresh_cookie
    then ok tt
    else if tokens_agree request.csrf_cookie request.csrf_header
    then ok tt
    else refuse 403 (codes "CSRF token missing or invalid")

tokens_agree_lem :
    (cookie header : Option Text)
    → tokens_agree cookie header ≡ true
    → (token : Text) × (token ≢ []) × (cookie ≡ some token) × (header ≡ some token)
unfolding secure_equals
tokens_agree_lem none header h = cc
tokens_agree_lem (some cookie) none h = cc
tokens_agree_lem (some cookie) (some header) h =
    let e : text_eq cookie header ≡ true = ground arith in
    (cookie, λ q. ground arith, refl, ap some (sym (text_eq→≡ cookie header e)))

-- A request that changes something and carries a session cookie passes only with one token, not
-- empty, in both the CSRF cookie and the CSRF header.
pub enforce_csrf_lem :
    (request : CsrfRequest)
    → enforce_csrf request ≡ ok tt
    → is_safe_method request.method ≡ false
    → (is_blank request.access_cookie && is_blank request.refresh_cookie) ≡ false
    → (token : Text) × (token ≢ [])
      × (request.csrf_cookie ≡ some token)
      × (request.csrf_header ≡ some token)
unfolding enforce_csrf
enforce_csrf_lem request passed changes cookies =
    tokens_agree_lem request.csrf_cookie request.csrf_header (ground arith)
