-- ===== src/ApiServer/Access.antt =====
-- Who calls the apiserver: CheckLogin of apiserver/server/auth.go, CheckAuth of user.go. What gin reads from
-- the request is given: a header that is not there reads as the empty text.
pub mod Routes
pub mod Rows
pub mod Foreign
pub mod Files
pub mod Isolation
use mini_drop.Base.{
  String, ◌==◌, string_eq, eq_iff, if◌then◌else◌, Option, none, some, ◌≡◌, ◌≢◌, ◌↔◌, refl, arith,
  Option-cases, inl, inr,
}

pub record Http : Type 0 where
  pub header : String → String
  pub cookie : String → Option String

pub record Identity : Type 0 where
  pub uid : String
  pub user_name : String

abbrev pub text_of : Option String → String
text_of none = ""
text_of (some s) = s

-- CheckLogin asks the header first.
abbrev pub header_or_cookie : Http → String → String → String
header_or_cookie http header_key cookie_key =
    let v = http.header header_key in if v == "" then text_of (http.cookie cookie_key) else v

-- `cookieOrHeader`.
abbrev pub cookie_or_header : Http → String → String → String
cookie_or_header http cookie_key header_key =
    let v = text_of (http.cookie cookie_key) in if v == "" then http.header header_key else v

-- What the handlers get, or the answer "not logged in".
unfoldable pub check_login : Http → Option Identity
check_login http =
    let uid = header_or_cookie http "Drop_user_uid" "drop_user_uid" in
    if uid == ""
    then none
    else some
        (record { uid = uid; user_name = header_or_cookie http "Drop_user_name" "drop_user_name" })

unfoldable pub check_auth : Http → Option Identity
check_auth http =
    let uid = cookie_or_header http "drop_user_uid" "Drop_user_uid" in
    if uid == ""
    then none
    else some
        (record { uid = uid; user_name = cookie_or_header http "drop_user_name" "Drop_user_name" })

-- Both let the same requests through.
check_login-check_auth : (http : Http) → (check_login http ≡ none) ↔ (check_auth http ≡ none)
unfolding check_login check_auth
check_login-check_auth http = (λ h. ground arith, λ h. ground arith)
