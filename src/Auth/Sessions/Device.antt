-- ===== src/Auth/Sessions/Device.antt =====
-- auth_sessions.py: what a request says of the device and the address it comes from; and
-- `secure_equals` of sync_security.py.
use yclients_project.Prelude.{
  ℕ, Bool, true, false, not, ◌&&◌, ◌||◌, Option, none, some, List, [], ◌∷◌, ◌++◌, if◌then◌else◌,
  ◌==◌, is_empty,
}
use yclients_project.Prelude.Text.{Text, codes, text_eq, strip}

-- `hashlib.sha256(...).hexdigest()`
abbrev pub Hash : Type 0
Hash = Text → Text

pub record Config : Type 0 where
  pub refresh_token_expire_days : ℕ
  pub session_max_age_days : ℕ
  pub max_active_sessions : ℕ
  pub jwt_secret : Text
  pub proxy_shared_secret : Text

-- `user_agent` and `forwarded_for` are empty where the header is missing.
pub record Request : Type 0 where
  pub user_agent : Text
  pub proxy_secret : Option Text
  pub forwarded_for : Text
  pub client_host : Option Text

-- Neither `None` nor empty is true.
abbrev pub is_blank : Option Text → Bool
is_blank none = true
is_blank (some s) = is_empty s

abbrev pub text_or_empty : Option Text → Text
text_or_empty none = []
text_or_empty (some s) = s

unfoldable pub secure_equals : Option Text → Text → Bool
secure_equals presented expected = text_eq (text_or_empty presented) expected

-- `header.split(',', 1)[0]`
abbrev pub before_comma : Text → Text
before_comma [] = []
before_comma (c ∷ s) = let rest = before_comma s in if c == 44 then [] else c ∷ rest

unfoldable pub client_ip : Config → Request → Option Text
unfolding secure_equals
client_ip config request =
    let forwarded = strip (before_comma request.forwarded_for) in
    let trusted =
      not (is_empty config.proxy_shared_secret)
      && secure_equals request.proxy_secret config.proxy_shared_secret in
    if trusted && not (is_empty forwarded) then some forwarded else request.client_host

unfoldable pub hash_ip : Hash → Config → Option Text → Option Text
hash_ip sha256 config none = none
hash_ip sha256 config (some []) = none
hash_ip sha256 config (some (c ∷ s)) = some (sha256 (config.jwt_secret ++ c ∷ s))

abbrev pub starts_with : Text → Text → Bool
starts_with [] s = true
starts_with (p ∷ ps) [] = false
starts_with (p ∷ ps) (c ∷ s) = (p == c) && starts_with ps s

-- `token in user_agent`
abbrev pub contains : Text → Text → Bool
contains token [] = is_empty token
contains token (c ∷ s) = starts_with token (c ∷ s) || contains token s

pub record Keyword : Type 0 where
  pub token : Text
  pub label : Text

abbrev pub browser_keywords : List Keyword
browser_keywords =
    record { token = codes "Edg/"; label = codes "Edge" }
    ∷ record { token = codes "OPR/"; label = codes "Opera" }
    ∷ record { token = codes "Firefox/"; label = codes "Firefox" }
    ∷ record { token = codes "Chrome/"; label = codes "Chrome" }
    ∷ record { token = codes "Safari/"; label = codes "Safari" }
    ∷ []

abbrev pub os_keywords : List Keyword
os_keywords =
    record { token = codes "iPhone"; label = codes "iOS" }
    ∷ record { token = codes "iPad"; label = codes "iPadOS" }
    ∷ record { token = codes "Android"; label = codes "Android" }
    ∷ record { token = codes "Windows NT"; label = codes "Windows" }
    ∷ record { token = codes "Mac OS X"; label = codes "macOS" }
    ∷ record { token = codes "Macintosh"; label = codes "macOS" }
    ∷ record { token = codes "Linux"; label = codes "Linux" }
    ∷ []

abbrev pub find_label : Text → List Keyword → Option Text
find_label user_agent [] = none
find_label user_agent (keyword ∷ keywords) =
    let rest = find_label user_agent keywords in
    if contains keyword.token user_agent then some keyword.label else rest

abbrev pub join_labels : Option Text → Option Text → Text
join_labels none none = codes "Unknown device"
join_labels none (some os) = os
join_labels (some browser) none = browser
join_labels (some browser) (some os) = browser ++ codes " · " ++ os

unfoldable pub parse_device_label : Text → Text
parse_device_label user_agent =
    if is_empty user_agent
    then codes "Unknown device"
    else join_labels (find_label user_agent browser_keywords) (find_label user_agent os_keywords)
