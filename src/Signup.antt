-- ===== src/Signup.antt =====
-- Access requests: create_access_request of app/auth/services.py, approve_request, reject_request
-- and update_user_details of app/users/services.py, with sp_approve_account_request and
-- sp_reject_account_request of database/procedures.sql and the constraints of account_requests.
pub mod Reviewed
pub mod Tests
use forge_x.Shared.{
  ◌==◌, if◌then◌else◌, is_some, length, take, find, exists, update_where, ℕ, ◌-◌, Bool, true, false,
  not, ◌&&◌, ◌||◌, Option, none, some, List, [], ◌∷◌, ◌++◌,
}
use forge_x.Shared.Text.{
  Text, codes, strip, lower, text_eq, or_empty, or_null, decimal, zeros, padded, Piece, lit, val,
}
use forge_x.Shared.Outcome.{Outcome, err, ok, ◌>>=◌, ◌>>◌, require, or_raise}
use forge_x.Access.{Role, administrator}
use forge_x.Store.{success, UserRow, Store, Request}
use forge_x.Store.Roles.{fn_has_role, user_by_id}
use forge_x.Store.Audit.{record_audit, done}
use forge_x.Users.{AdminError, insert_role, new_user}
use forge_x.Auth.{AuthPort}
use forge_x.Auth.Requests.{
  RequestStatus, pending_request, approved_request, rejected_request, AccountRequest, is_pending,
  request_allowed,
}

pub data SignupError : Type 0 where
  no_longer_available only_admins_review request_not_found already_reviewed : SignupError
  choose_valid_role name_is_taken account_not_found belongs_to_request : SignupError

-- The store with the table account_requests
pub record Accounts : Type 0 where
  pub store : Store
  pub requests : List AccountRequest

abbrev is_approved_request : RequestStatus → Bool
is_approved_request approved_request = true
is_approved_request other = false

-- chk_ar_review and chk_ar_created
unfoldable pub request_valid : AccountRequest → Bool
request_valid r =
    (if is_pending r.request_status
      then not (is_some r.reviewed_by) && not (is_some r.reviewed_at) && is_some r.password_hash
      else is_some r.reviewed_by && is_some r.reviewed_at && not (is_some r.password_hash))
    && (if is_approved_request r.request_status
        then is_some r.created_user_id
        else not (is_some r.created_user_id))

-- `f"AR-{n:04d}"`: at least four digits
unfoldable pub request_code : ℕ → Text
unfolding decimal zeros
request_code n = codes "AR-" ++ (zeros (4 - length (decimal n)) ++ decimal n)

-- CONCAT('AR-', LPAD(n, 4, '0')), which cuts a longer number
unfoldable pub sql_request_code : ℕ → Text
unfolding padded
sql_request_code n = codes "AR-" ++ padded 4 n

abbrev pub role_error : Outcome AdminError Store → Outcome SignupError Store
role_error (err e) = err choose_valid_role
role_error (ok s) = ok s

module _ (port : AuthPort) (q : Request) where
  unfoldable pub new_request : Text → Text → Text → Text → Text → AccountRequest
  new_request full_name email username password reason = record {
    request_id = q.new_id;
    full_name = full_name;
    email = email;
    username = username;
    password_hash = some (port.hash password);
    reason = or_null reason;
    request_status = pending_request;
    reviewed_by = none;
    reviewed_at = none;
    review_note = none;
    created_user_id = none;
  }

  -- `create_access_request`
  unfoldable pub create_access_request :
      Text → Text → Text → Text → Text → Accounts → Outcome SignupError (Text × Accounts)
  unfolding new_request request_code
  create_access_request full_name email username password reason a = do
    let row = new_request full_name email username password reason
    require (request_allowed port row a.store.users a.requests) no_longer_available
    ok (
      request_code q.new_id,
      record {
        requests = a.requests ++ row ∷ [];
        store =
            record_audit q
              record {
                user_id = none;
                action = "account.request";
                entity_type = "Account request";
                entity_ref = some (request_code q.new_id);
                outcome = success;
                details = some (lit "Requested username " ∷ val username ∷ []);
              }
              a.store;
      },
    )

  unfoldable pub request_by_id : ℕ → Accounts → Option AccountRequest
  request_by_id rid a = find (λ r. r.request_id == rid) a.requests

  -- The user that an approval creates
  unfoldable pub user_of_request : AccountRequest → UserRow
  unfolding new_user
  user_of_request r =
      new_user q.new_id r.full_name r.email r.username (or_empty r.password_hash) false

  unfoldable pub set_approved : ℕ → AccountRequest → AccountRequest
  set_approved reviewer r = record r {
    request_status = approved_request;
    reviewed_by = some reviewer;
    reviewed_at = some q.now;
    password_hash = none;
    created_user_id = some q.new_id;
  }

  -- uq_users_username and uq_users_email
  unfoldable pub is_name_used : Text → Text → List UserRow → Bool
  is_name_used email username us =
      exists (λ u. port.same u.username username || port.same u.email email) us

  -- sp_approve_account_request after the request is locked
  unfoldable pub approve_row :
      AccountRequest → Role → ℕ → Accounts → Outcome SignupError (ℕ × Accounts)
  unfolding user_of_request set_approved is_name_used sql_request_code insert_role
  approve_row r role reviewer a = do
    require (is_pending r.request_status) already_reviewed
    require (not (is_name_used r.email r.username a.store.users)) name_is_taken
    s ← role_error (
        insert_role q q.new_id role reviewer
          (record a.store { users = a.store.users ++ user_of_request r ∷ [] }))
    ok (
      q.new_id,
      record {
        requests =
            update_where (λ x. x.request_id == r.request_id) (set_approved reviewer) a.requests;
        store =
            record_audit q
              (done reviewer "account.approve" "Account request" (sql_request_code r.request_id)
                (lit "Created user " ∷ val r.username ∷ []))
              s;
      },
    )

  -- `approve_request`, for a role that exists: the id of the new user
  unfoldable pub approve_request : ℕ → Role → ℕ → Accounts → Outcome SignupError (ℕ × Accounts)
  unfolding approve_row request_by_id
  approve_request rid role reviewer a = do
    require (fn_has_role a.store reviewer administrator) only_admins_review
    r ← or_raise (request_by_id rid a) request_not_found
    approve_row r role reviewer a

  unfoldable pub set_rejected : ℕ → Option Text → AccountRequest → AccountRequest
  set_rejected reviewer note r = record r {
    request_status = rejected_request;
    reviewed_by = some reviewer;
    reviewed_at = some q.now;
    review_note = note;
    password_hash = none;
  }

  unfoldable pub note_pieces : Option Text → Option (List Piece)
  note_pieces none = none
  note_pieces (some t) = some (val t ∷ [])

  -- `reject_request` with sp_reject_account_request
  unfoldable pub reject_request : ℕ → ℕ → Option Text → Accounts → Outcome SignupError Accounts
  unfolding set_rejected request_by_id sql_request_code note_pieces
  reject_request rid reviewer given a = do
    let note = or_null (take 255 (strip (or_empty given)))
    require (fn_has_role a.store reviewer administrator) only_admins_review
    r ← or_raise (request_by_id rid a) request_not_found
    require (is_pending r.request_status) already_reviewed
    ok record {
      requests = update_where (λ x. x.request_id == rid) (set_rejected reviewer note) a.requests;
      store =
          record_audit q
            record {
              user_id = some reviewer;
              action = "account.reject";
              entity_type = "Account request";
              entity_ref = some (sql_request_code rid);
              outcome = success;
              details = note_pieces note;
            }
            a.store;
    }

abbrev join_changes : Bool → List Piece → List Piece → List Piece
join_changes changed note [] = if changed then note else []
join_changes changed note (p ∷ ps) = if changed then note ++ (lit "; " ∷ p ∷ ps) else p ∷ ps

-- `changes` of `update_user_details`, joined by semicolons
unfoldable pub user_changes : Text → Text → Text → UserRow → List Piece
user_changes full_name email username u =
    join_changes (not (text_eq full_name u.full_name))
      (lit "name " ∷ val u.full_name ∷ lit " to " ∷ val full_name ∷ [])
      (join_changes (not (text_eq email (lower u.email))) (lit "email" ∷ []) (
        join_changes (not (text_eq username u.username))
          (lit "username " ∷ val u.username ∷ lit " to " ∷ val username ∷ []) []))

unfoldable pub set_names : Text → Text → Text → UserRow → UserRow
set_names full_name email username u = record u {
  full_name = full_name;
  email = email;
  username = username;
}

-- A pending request with this email or username, whatever their case
unfoldable pub is_requested : (port : AuthPort) → Text → Text → List AccountRequest → Bool
is_requested port email username requests =
    exists
      (λ r.
        is_pending r.request_status
        && (port.same (lower r.email) email || port.same (lower r.username) (lower username)))
      requests

-- `update_user_details`: whether anything changed
unfoldable pub update_user_details :
    (port : AuthPort)
    → Request
    → (uid admin : ℕ) (full_name given_email username : Text) → Accounts
    → Outcome SignupError (Bool × Accounts)
unfolding user_changes set_names is_requested
update_user_details port q uid admin full_name given_email username a = do
  let email = lower (strip given_email)
  current ← or_raise (user_by_id a.store uid) account_not_found
  elim (user_changes full_name email username current) [
    | [] ↦ ok (false, a)
    | p ∷ ps ↦
        require (not (is_requested port email username a.requests)) belongs_to_request
        >> (require
              (not (
                exists
                  (λ u.
                    not (u.user_id == uid)
                    && (port.same u.username username || port.same u.email email))
                  a.store.users))
              name_is_taken
            >> ok (
              true,
              record a {
                store =
                    record_audit q
                      (done admin "user.update" "User" username (lit "Changed " ∷ p ∷ ps))
                      (record a.store {
                        users =
                            update_where (λ u. u.user_id == uid)
                              (set_names full_name email username) a.store.users;
                      });
              },
            ))
  ]
