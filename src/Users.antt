-- ===== src/Users.antt =====
-- app/users/services.py: accounts and their roles as administrators change them, with the triggers
-- trg_ur_audit_insert and trg_ur_audit_delete. Roles are named by the role, not by role_id; the
-- session's user @app_user_id is the administrator who acts. The CHECK constraints on the form of a
-- name and an email repeat the form's and are left to it.
pub mod Administrators
pub mod Accounts
pub mod Tests
use forge_x.Shared.{
  leb, ◌==◌, if◌then◌else◌, length, exists, all, count, select, update_where, delete_where, ℕ, ◌+◌,
  String, Bool, true, false, not, ◌&&◌, ◌||◌, Option, none, some, List, [], ◌∷◌, ◌++◌,
}
use forge_x.Shared.Text.{Text, lower, text_eq, lit}
use forge_x.Shared.Outcome.{Outcome, ok, ◌>>=◌, ◌>>◌, require, or_raise}
use forge_x.Access.{Role, administrator, investigator, custodian, auditor, role_eq}
use forge_x.Store.{UserRow, UserRole, Store, Request}
use forge_x.Store.Roles.{has_role_row, user_by_id}
use forge_x.Store.Audit.{record_audit, done}

pub data AdminError : Type 0 where
  own_account already_has_role has_not_the_role needs_one_role needs_one_administrator : AdminError
  user_not_found taken_name weak_password : AdminError

-- `_not_self`
unfoldable pub not_self : ℕ → ℕ → Outcome AdminError Unit
not_self target admin = require (not (target == admin)) own_account

abbrev pub is_active_admin : List UserRole → UserRow → Bool
is_active_admin roles u =
    u.is_active && exists (λ r. r.user_id == u.user_id && role_eq r.role administrator) roles

unfoldable pub ids_of : List UserRow → List ℕ
ids_of [] = []
ids_of (u ∷ us) = u.user_id ∷ ids_of us

-- `_lock_active_admins`
unfoldable pub active_admins : Store → List ℕ
active_admins s = ids_of (select (is_active_admin s.user_roles) s.users)

-- `ids == {target}`
unfoldable pub is_just : List ℕ → ℕ → Bool
is_just ids target = leb 1 (length ids) && all (λ i. i == target) ids

abbrev pub role_name : Role → String
role_name administrator = "Administrator"
role_name investigator = "Investigator"
role_name custodian = "Evidence Custodian"
role_name auditor = "Read-Only Auditor"

abbrev for_user : Option UserRow → (UserRow → Store) → Store → Store
for_user none f s = s
for_user (some u) f s = f u

-- The audit row that the triggers of user_roles write for an existing user
unfoldable pub role_audit : Request → ℕ → String → String → ℕ → Role → Store → Store
role_audit q admin action verb target role s =
    for_user (user_by_id s target)
      (λ u.
        record_audit q (done admin action "User" u.username (lit verb ∷ lit (role_name role) ∷ []))
          s)
      s

abbrev pub is_row : ℕ → Role → UserRole → Bool
is_row uid role r = r.user_id == uid && role_eq r.role role

-- INSERT INTO user_roles, with its primary key and trigger
unfoldable pub insert_role : Request → ℕ → Role → ℕ → Store → Outcome AdminError Store
unfolding role_audit
insert_role q target role admin s = do
  require (not (exists (is_row target role) s.user_roles)) already_has_role
  let row : UserRole = record { user_id = target; role = role; assigned_by = some admin }
  ok (
      role_audit q admin "role.assign" "Granted role: " target role
        (record s { user_roles = s.user_roles ++ row ∷ [] }))

unfoldable pub add_role : Request → ℕ → Role → ℕ → Store → Outcome AdminError Store
unfolding not_self insert_role
add_role q target role admin s = do
  not_self target admin
  require (not (has_role_row s target role)) already_has_role
  insert_role q target role admin s

abbrev pub is_administrator : Role → Bool
is_administrator administrator = true
is_administrator _ = false

unfoldable pub revoke_role : Request → ℕ → Role → ℕ → Store → Outcome AdminError Store
unfolding not_self role_audit
revoke_role q target role admin s = do
  not_self target admin
  require (has_role_row s target role) has_not_the_role
  require (not (count (λ r. r.user_id == target) s.user_roles == 1)) needs_one_role
  require (not (is_administrator role && is_just (active_admins s) target)) needs_one_administrator
  ok (
      role_audit q admin "role.revoke" "Revoked role: " target role
        (record s { user_roles = delete_where (is_row target role) s.user_roles }))

unfoldable pub set_status : Bool → UserRow → UserRow
set_status active u = record u {
  is_active = active;
  session_version = u.session_version + (if active then 0 else 1);
}

-- Whether the UPDATE changes a row: MySQL counts the rows that change, not those that match.
unfoldable pub status_changes : Bool → ℕ → List UserRow → Bool
status_changes active target us =
    exists (λ u. u.user_id == target && not (active && u.is_active)) us

abbrev status_action : Bool → String
status_action active = if active then "user.activate" else "user.deactivate"

unfoldable pub set_active : Request → ℕ → Bool → ℕ → Store → Outcome AdminError Store
unfolding not_self
set_active q target active admin s = do
  not_self target admin
  require (not (not active && is_just (active_admins s) target)) needs_one_administrator
  require (status_changes active target s.users) user_not_found
  user ← or_raise (user_by_id s target) user_not_found
  ok (
      record_audit q (done admin (status_action active) "User" user.username [])
        (record s { users = update_where (λ u. u.user_id == target) (set_status active) s.users }))

unfoldable pub new_user : ℕ → Text → Text → Text → Text → Bool → UserRow
new_user uid full_name email username hashed must_change = record {
  user_id = uid;
  full_name = full_name;
  email = email;
  username = username;
  password_hash = hashed;
  is_active = true;
  must_change_password = must_change;
  session_version = 0;
  last_login_at = none;
}

-- The unique keys of users, whose columns compare without regard to case
unfoldable pub name_taken : Text → Text → List UserRow → Bool
name_taken email username us =
    exists
      (λ u. text_eq (lower u.email) (lower email) || text_eq (lower u.username) (lower username)) us

-- `create_user`; `hash` is Werkzeug's generate_password_hash.
unfoldable pub create_user :
    (hash : Text → Text)
    → Request
    → UserRow
    → Role
    → Text
    → ℕ
    → Store
    → Outcome AdminError (ℕ × Store)
unfolding new_user insert_role name_taken
create_user hash q p role password admin s = do
  require (not (name_taken p.email p.username s.users)) taken_name
  let row = new_user q.new_id p.full_name p.email p.username (hash password) p.must_change_password
  s1 ← insert_role q q.new_id role admin (record s { users = s.users ++ row ∷ [] })
  ok (
    q.new_id,
    record_audit q
        (done admin "user.create" "User" p.username
          (lit "Account created by an administrator" ∷ []))
        s1,
  )

unfoldable pub set_password : Text → Bool → UserRow → UserRow
set_password hashed must_change u = record u {
  password_hash = hashed;
  must_change_password = must_change;
  session_version = u.session_version + 1;
}

-- `reset_password`; `acceptable` is whether password_problems returns no problem.
unfoldable pub reset_password :
    (hash : Text → Text) (acceptable : Text → Text → Bool)
    → Request
    → ℕ
    → Text
    → ℕ
    → Store
    → Outcome AdminError Store
unfolding not_self
reset_password hash acceptable q target password admin s = do
  not_self target admin
  user ← or_raise (user_by_id s target) user_not_found
  require (acceptable password user.username) weak_password
  ok (
      record_audit q
        (done admin "user.password_reset" "User" user.username
          (lit "Temporary password set; change required at next login" ∷ []))
        (record s {
          users =
              update_where (λ u. u.user_id == target) (set_password (hash password) true) s.users;
        }))
