-- ===== src/Auth.antt =====
-- app/auth/services.py: sign-in with its throttle, sign-out and change of password, and the rules of
-- app/auth/passwords.py. MySQL's collation and Werkzeug's check_password_hash are parameters, and
-- so are the limits of app/config.py.
pub mod Throttle
pub mod Requests
pub mod Passwords
pub mod Tests
use forge_x.Shared.{
  ltb, leb, ◌==◌, if◌then◌else◌, holds_id, take, find, count, update_where, ℕ, ◌+◌, max, Bool, true,
  false, not, ◌&&◌, ◌||◌, Option, none, some, List, [], ◌∷◌, ◌++◌,
}
use forge_x.Shared.Text.{Text, codes, strip, text_eq, or_empty}
use forge_x.Shared.Outcome.{Outcome, err, ok, ◌>>=◌, ◌>>◌, require, or_raise}
use forge_x.Store.{
  success, LoginFailure, invalid_credentials, account_inactive, rate_limited, UserRow, LoginAttempt,
  Store, Request,
}
use forge_x.Store.Roles.{user_by_id}
use forge_x.Store.Audit.{record_audit, done}

-- `same` compares texts as the columns' collation does, `check` is check_password_hash, `hash` is
-- generate_password_hash.
pub record AuthPort : Type 0 where
  pub same : Text → Text → Bool
  pub check : Text → Text → Bool
  pub hash : Text → Text
  pub account_limit : ℕ
  pub ip_limit : ℕ

-- LOCK_WINDOW_MINUTES, in seconds
abbrev pub lock_window : ℕ
lock_window = 900

abbrev pub or_unknown : Option Text → Text
or_unknown none = codes "unknown"
or_unknown (some []) = codes "unknown"
or_unknown (some (c ∷ t)) = c ∷ t

abbrev pub is_invalid : Option LoginFailure → Bool
is_invalid (some invalid_credentials) = true
is_invalid _ = false

abbrev same_user : Option ℕ → Option ℕ → Bool
same_user none uid = false
same_user (some u) uid = holds_id uid u

-- `username_or_email = identifier OR (user_id IS NOT NULL AND la.user_id = user_id)`
unfoldable pub of_account : AuthPort → Text → Option ℕ → LoginAttempt → Bool
of_account port identifier uid a =
    port.same a.username_or_email identifier || same_user uid a.user_id

-- COALESCE(MAX(attempted_at) of the account's successes, '1970-01-01')
unfoldable pub last_success : AuthPort → Text → Option ℕ → List LoginAttempt → ℕ
last_success port identifier uid [] = 0
last_success port identifier uid (a ∷ rest) =
    let later = last_success port identifier uid rest in
    if a.success && of_account port identifier uid a then max a.attempted_at later else later

unfoldable pub is_recent : Request → LoginAttempt → Bool
is_recent q a = leb q.now (a.attempted_at + lock_window)

unfoldable pub account_failures : AuthPort → Request → Text → Option ℕ → List LoginAttempt → ℕ
account_failures port q identifier uid attempts =
    count
      (λ a.
        of_account port identifier uid a
        && not a.success
        && is_invalid a.failure_reason
        && is_recent q a
        && ltb (last_success port identifier uid attempts) a.attempted_at)
      attempts

unfoldable pub ip_failures : AuthPort → Request → List LoginAttempt → ℕ
ip_failures port q attempts =
    count (λ a. text_eq a.ip_address (or_unknown q.ip) && not a.success && is_recent q a) attempts

-- `_is_rate_limited`
unfoldable pub is_rate_limited : AuthPort → Request → Text → Option ℕ → List LoginAttempt → Bool
is_rate_limited port q identifier uid attempts =
    leb port.account_limit (account_failures port q identifier uid attempts)
    || leb port.ip_limit (ip_failures port q attempts)

-- `_record_attempt`; the user agent is left out.
unfoldable pub record_attempt :
    Request → Text → Option ℕ → Bool → Option LoginFailure → Store → Store
record_attempt q identifier uid succeeded reason s =
    let row : LoginAttempt = record {
      username_or_email = take 254 identifier;
      user_id = uid;
      success = succeeded;
      failure_reason = reason;
      ip_address = take 45 (or_unknown q.ip);
      attempted_at = q.now;
    } in
    record s { logins = s.logins ++ row ∷ [] }

-- `verify_password`
unfoldable pub verify_password : AuthPort → Text → Text → Bool
verify_password port [] password = false
verify_password port (c ∷ stored_hash) password = port.check (c ∷ stored_hash) password

-- AuthResult: the user's id and session version, or the reason
abbrev pub AuthResult : Type 0
AuthResult = Outcome LoginFailure (ℕ × ℕ)

abbrev id_of : Option UserRow → Option ℕ
id_of none = none
id_of (some u) = some u.user_id

unfoldable pub account_named : AuthPort → Text → Store → Option UserRow
account_named port identifier s =
    find (λ u. port.same u.username identifier || port.same u.email identifier) s.users

-- A refused attempt, recorded
unfoldable pub refuse : Request → Text → Option ℕ → LoginFailure → Store → AuthResult × Store
refuse q identifier uid reason s =
    (err reason, record_attempt q identifier uid false (some reason) s)

unfoldable pub signed_in : Request → UserRow → UserRow
signed_in q u = record u { last_login_at = some q.now }

-- The account that was found and is not throttled
unfoldable pub sign_in : AuthPort → Request → Text → Text → UserRow → Store → AuthResult × Store
sign_in port q identifier password user s =
    if not (verify_password port user.password_hash password)
    then refuse q identifier (some user.user_id) invalid_credentials s
    else if not user.is_active
    then refuse q identifier (some user.user_id) account_inactive s
    else (
      ok (user.user_id, user.session_version),
      record (record_attempt q identifier (some user.user_id) true none s) {
        users = update_where (λ u. u.user_id == user.user_id) (signed_in q) s.users;
      },
    )

unfoldable pub attempt :
    AuthPort → Request → Text → Text → Option UserRow → Store → AuthResult × Store
unfolding sign_in
attempt port q identifier password none s = refuse q identifier none invalid_credentials s
attempt port q identifier password (some user) s = sign_in port q identifier password user s

-- `authenticate`; burn_time changes nothing.
unfoldable pub authenticate : AuthPort → Request → Option Text → Text → Store → AuthResult × Store
unfolding attempt
authenticate port q given password s =
    let identifier = take 254 (strip (or_empty given)) in
    let user = account_named port identifier s in
    if is_rate_limited port q identifier (id_of user) s.logins
    then refuse q identifier (id_of user) rate_limited s
    else attempt port q identifier password user s

unfoldable pub next_session : UserRow → UserRow
next_session u = record u { session_version = u.session_version + 1 }

abbrev username_of : Option UserRow → Option Text
username_of none = none
username_of (some u) = some u.username

-- `logout`
unfoldable pub logout : Request → ℕ → Store → Store
logout q uid s =
    record_audit q
      (record {
        user_id = some uid;
        action = "logout";
        entity_type = "User";
        entity_ref = username_of (user_by_id s uid);
        outcome = success;
        details = none;
      })
      (record s { users = update_where (λ u. u.user_id == uid) next_session s.users })

pub data PasswordError : Type 0 where
  wrong_password unacceptable same_password : PasswordError

unfoldable pub with_password : Text → UserRow → UserRow
with_password hashed u = record u {
  password_hash = hashed;
  must_change_password = false;
  session_version = u.session_version + 1;
}

-- `change_password`; `acceptable` is whether password_problems returns no problem.
unfoldable pub change_password :
    AuthPort
    → (acceptable : Text → Text → Bool) → Request
    → ℕ
    → Text
    → Text
    → Store
    → Outcome PasswordError (ℕ × Store)
change_password port acceptable q uid current new s = do
  row ← or_raise (user_by_id s uid) wrong_password
  require (verify_password port row.password_hash current) wrong_password
  require (acceptable new row.username) unacceptable
  require (not (verify_password port row.password_hash new)) same_password
  ok (
    row.session_version + 1,
    record_audit q (done uid "user.password_change" "User" row.username []) (record s {
      users = update_where (λ u. u.user_id == uid) (with_password (port.hash new)) s.users;
    }),
  )
