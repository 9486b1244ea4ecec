-- ===== src/Auth/Throttle.antt =====
-- What a sign-in of app/auth/services.py takes, and how its throttle counts wrong passwords.
use forge_x.Shared.{
  ltb, ◌==◌, ==_refl, Bool-cases, Option-cases, take, count, update_where, ℕ, suc, ◌<◌, ◌≡◌, refl,
  ◌∙◌, inl, inr, Bool, true, false, not, ◌&&◌, Option, none, some, List, [], ◌∷◌, ◌++◌, arith,
}
use forge_x.Shared.Text.{Text, strip, or_empty}
use forge_x.Shared.Outcome.{err, ok}
use forge_x.Store.{invalid_credentials, UserRow, LoginAttempt, Store, Request}
use forge_x.Integrity.Current.{count-append}
use forge_x.Auth.{
  AuthPort, or_unknown, is_invalid, of_account, last_success, is_recent, account_failures,
  is_rate_limited, record_attempt, verify_password, account_named, refuse, signed_in, sign_in,
  attempt, authenticate,
}

-- A sign-in that was accepted: the account exists, is active and not throttled, its password fits,
-- and the success is recorded.
pub record SignedIn (port : AuthPort) (q : Request) (identifier password : Text) (uid version : ℕ)
    (s s' : Store) : Type 0 where
  pub user : UserRow
  pub found : account_named port identifier s ≡ some user
  pub is_user : (user.user_id ≡ uid) × (user.session_version ≡ version)
  pub not_throttled : is_rate_limited port q identifier (some uid) s.logins ≡ false
  pub password_fits : verify_password port user.password_hash password ≡ true
  pub active : user.is_active ≡ true
  pub recorded :
      s'.logins
      ≡ s.logins
        ++ record {
          username_or_email = take 254 identifier;
          user_id = some uid;
          success = true;
          failure_reason = none;
          ip_address = take 45 (or_unknown q.ip);
          attempted_at = q.now;
        }
          ∷ []
  pub stamped :
      s'.users
      ≡ update_where (λ u. u.user_id == uid) (λ u. record u { last_login_at = some q.now }) s.users

abbrev pub cleaned : Option Text → Text
cleaned given = take 254 (strip (or_empty given))

module _ (port : AuthPort) (q : Request) (password : Text) (s : Store) where
  sign_in-SignedIn :
      (identifier : Text) (u : UserRow) (uid version : ℕ) (s' : Store)
      → account_named port identifier s ≡ some u
      → is_rate_limited port q identifier (some u.user_id) s.logins ≡ false
      → sign_in port q identifier password u s ≡ (ok (uid, version), s')
      → SignedIn port q identifier password uid version s s'
  unfolding sign_in refuse record_attempt signed_in
  sign_in-SignedIn identifier u uid version s' f n h = record {
    user = u;
    found = f;
    is_user = ground arith;
    not_throttled = ground arith;
    password_fits = ground arith;
    active = ground arith;
    recorded = ground arith;
    stamped = ground arith;
  }

  -- A sign-in that succeeds returns the id and session version of an account that has the given
  -- name, is active and not throttled and whose password fits; one successful attempt of the
  -- account is recorded, with the name, the address and the time, and of the users only
  -- last_login_at of the account is set.
  pub authenticate-SignedIn :
      (given : Option Text) (uid version : ℕ) (s' : Store)
      → authenticate port q given password s ≡ (ok (uid, version), s')
      → SignedIn port q (cleaned given) password uid version s s'
  unfolding authenticate attempt refuse
  authenticate-SignedIn given uid version s' h =
      elim (Option-cases (account_named port (cleaned given) s)) [
        | inl e ↦ elim (Bool-cases (is_rate_limited port q (cleaned given) none s.logins)) [
          | inl l ↦ absurd (ground (arith, rw (e, l) at h))
          | inr l ↦ absurd (ground (arith, rw (e, l) at h))
        ]
        | inr u ↦
            elim (Bool-cases (is_rate_limited port q (cleaned given) (some u.0.user_id) s.logins)) [
              | inl l ↦ absurd (ground (arith, rw (u.1, l) at h))
              | inr l ↦ sign_in-SignedIn (cleaned given) u.0 uid version s' u.1 l (rw (u.1, l) at h)
            ]
      ]

last_success-append_failure :
    (port : AuthPort) (identifier : Text) (uid : Option ℕ) (xs : List LoginAttempt)
    (a : LoginAttempt)
    → a.success ≡ false
    → last_success port identifier uid (xs ++ a ∷ []) ≡ last_success port identifier uid xs
unfolding last_success
last_success-append_failure port identifier uid [] a e = ground arith
last_success-append_failure port identifier uid (x ∷ xs) a e =
    ground (arith, last_success-append_failure port identifier uid xs a)

-- The row of a wrong password
abbrev failed_row : Request → Text → ℕ → LoginAttempt
failed_row q identifier uid = record {
  username_or_email = take 254 identifier;
  user_id = some uid;
  success = false;
  failure_reason = some invalid_credentials;
  ip_address = take 45 (or_unknown q.ip);
  attempted_at = q.now;
}

-- Whether a row counts towards the throttle of the account after its last success
counted : AuthPort → Request → Text → ℕ → ℕ → LoginAttempt → Bool
counted port q identifier uid since a =
    of_account port identifier (some uid) a
    && not a.success
    && is_invalid a.failure_reason
    && is_recent q a
    && ltb since a.attempted_at

failed_row-counted :
    (port : AuthPort) (q : Request) (identifier : Text) (uid since : ℕ)
    → since < q.now
    → counted port q identifier uid since (failed_row q identifier uid) ≡ true
unfolding counted of_account is_recent
failed_row-counted port q identifier uid since h = ground (arith, ==_refl uid)

-- One more failure of the account, now and after its last success
failure_counts :
    (port : AuthPort) (q : Request) (identifier : Text) (uid : ℕ) (s : Store)
    → last_success port identifier (some uid) s.logins < q.now
    → account_failures port q identifier
        (some uid)
        (record_attempt q identifier (some uid) false (some invalid_credentials) s).logins
      ≡ suc (account_failures port q identifier (some uid) s.logins)
unfolding account_failures record_attempt count counted
failure_counts port q identifier uid s h =
    let row = failed_row q identifier uid in
    let since = last_success port identifier (some uid) s.logins in
    rw (last_success-append_failure port identifier (some uid) s.logins row refl) (
      count-append (counted port q identifier uid since) s.logins (row ∷ [])
      ∙ rw (failed_row-counted port q identifier uid since h) (omega arith))

-- A wrong password for an account that is not throttled yet is refused and counts once more towards
-- its throttle, if its last success is before now.
pub wrong_password_counts :
    (port : AuthPort) (q : Request) (given : Option Text) (password : Text) (s : Store)
    (u : UserRow)
    → account_named port (cleaned given) s ≡ some u
    → is_rate_limited port q (cleaned given) (some u.user_id) s.logins ≡ false
    → verify_password port u.password_hash password ≡ false
    → last_success port (cleaned given) (some u.user_id) s.logins < q.now
    → ((authenticate port q given password s).0 ≡ err invalid_credentials)
      × (account_failures port q
            (cleaned given)
            (some u.user_id)
            (authenticate port q given password s).1.logins
          ≡ suc (account_failures port q (cleaned given) (some u.user_id) s.logins))
unfolding authenticate attempt sign_in refuse
wrong_password_counts port q given password s u f n w h =
    (rw (f, n, w) refl, rw (f, n, w) (failure_counts port q (cleaned given) u.user_id s h))
