-- ===== src/Signup/Reviewed.antt =====
-- A password hash is kept with a request exactly while it is pending, and a review is recorded with
-- its reviewer.
use mathlib.Core.Path.{subst}
use forge_x.Shared.{
  ◌==◌, Bool-cases, Option-cases, take, find, update_where, ℕ, ◌≡◌, refl, sym, ap, ◌∙◌, inl, inr,
  Bool, true, false, not, Option, none, some, List, [], ◌∷◌, ◌++◌, arith,
}
use forge_x.Shared.Text.{Text, strip, or_empty, or_null, lit, val}
use forge_x.Shared.Tables.{All, All-append, Distinct}
use forge_x.Shared.Outcome.{Outcome, ok, ◌>>=◌, bind-ok, ◌>>◌, require, or_raise, require-then}
use forge_x.Access.{Role, administrator}
use forge_x.Store.{Store, Request}
use forge_x.Store.Roles.{fn_has_role}
use forge_x.Store.Audit.{record_audit, done}
use forge_x.Users.{role_audit, insert_role, new_user}
use forge_x.Auth.{AuthPort}
use forge_x.Auth.Requests.{approved_request, AccountRequest, is_pending}
use forge_x.Signup.{
  SignupError, only_admins_review, request_not_found, already_reviewed, name_is_taken, Accounts,
  request_valid, sql_request_code, role_error, new_request, create_access_request, request_by_id,
  user_of_request, set_approved, is_name_used, approve_row, approve_request, set_rejected,
  reject_request, update_user_details,
}

abbrev pub AllValid : List AccountRequest → Type 0
AllValid = All λ r. request_valid r ≡ true

All-update_where :
    (P : AccountRequest → Type 0) (w : AccountRequest → Bool) (f : AccountRequest → AccountRequest)
    (rs : List AccountRequest)
    → ((r : AccountRequest)
        → w r ≡ true
        → P r
        → request_valid r ≡ true
        → request_valid (f r) ≡ true)
    → All P rs
    → AllValid rs
    → AllValid (update_where w f rs)
unfolding update_where
All-update_where P w f [] k p v = tt
All-update_where P w f (r ∷ rs) k p v = elim (Bool-cases (w r)) [
  | inl e ↦ (rw e (k r e p.0 v.0), All-update_where P w f rs k p.1 v.1)
  | inr e ↦ (rw e (v.0), All-update_where P w f rs k p.1 v.1)
]

all_units : (rs : List AccountRequest) → All (λ x. Unit {0}) rs
all_units [] = tt
all_units (r ∷ rs) = (tt, all_units rs)

-- The only row with this id
abbrev IsOnly : ℕ → AccountRequest → AccountRequest → Type 0
IsOnly rid r x = (x.request_id == rid) ≡ true → x ≡ r

All-IsOnly_rest :
    (rid : ℕ) (r x : AccountRequest) (rs : List AccountRequest)
    → (x.request_id == rid) ≡ true
    → All (λ y. (x.request_id == y.request_id) ≡ false) rs
    → All (IsOnly rid r) rs
All-IsOnly_rest rid r x [] h v = tt
All-IsOnly_rest rid r x (y ∷ ys) h v =
    (λ k. absurd (ground (arith, h, k, v.0)), All-IsOnly_rest rid r x ys h v.1)

find-IsOnly :
    (rid : ℕ) (rs : List AccountRequest) (r : AccountRequest)
    → Distinct (λ x. x.request_id) rs
    → find (λ x. x.request_id == rid) rs ≡ some r
    → All (IsOnly rid r) rs
unfolding find Distinct
find-IsOnly rid [] r d h = tt
find-IsOnly rid (x ∷ xs) r d h = elim (Bool-cases (x.request_id == rid)) [
  | inl e ↦ (λ k. ground (arith, h, e), All-IsOnly_rest rid r x xs e d.0)
  | inr e ↦ (λ k. absurd (ground (arith, e, k)), find-IsOnly rid xs r d.1 (ground (arith, h, e)))
]

-- An accepted approval: by an active administrator, of a pending request whose names no user has.
-- It creates the user with the names and the hash of the request and gives the role; the request
-- keeps no hash and names its reviewer and the user.
pub record Approved (port : AuthPort) (q : Request) (rid : ℕ) (role : Role) (reviewer uid : ℕ)
    (a a' : Accounts) : Type 0 where
  pub by_administrator : fn_has_role a.store reviewer administrator ≡ true
  pub former : AccountRequest
  pub former_found : request_by_id port q rid a ≡ some former
  pub was_pending : is_pending former.request_status ≡ true
  pub names_free : is_name_used port q former.email former.username a.store.users ≡ false
  pub user_added :
      a'.store.users
      ≡ a.store.users
        ++ record {
          user_id = q.new_id;
          full_name = former.full_name;
          email = former.email;
          username = former.username;
          password_hash = or_empty former.password_hash;
          is_active = true;
          must_change_password = false;
          session_version = 0;
          last_login_at = none;
        }
          ∷ []
  pub role_given :
      a'.store.user_roles
      ≡ a.store.user_roles
        ++ record { user_id = q.new_id; role = role; assigned_by = some reviewer } ∷ []
  pub new_user_id : uid ≡ q.new_id
  pub requests_after :
      a'.requests
      ≡ update_where
          (λ x. x.request_id == former.request_id)
          (λ x. record x {
            request_status = approved_request;
            reviewed_by = some reviewer;
            reviewed_at = some q.now;
            password_hash = none;
            created_user_id = some q.new_id;
          })
          a.requests

module _ (port : AuthPort) (q : Request) where
  new_request_valid :
      (full_name email username password reason : Text)
      → request_valid (new_request port q full_name email username password reason) ≡ true
  unfolding request_valid new_request
  new_request_valid full_name email username password reason = refl

  set_approved_valid :
      (reviewer : ℕ) (r : AccountRequest) → request_valid (set_approved port q reviewer r) ≡ true
  unfolding request_valid set_approved
  set_approved_valid reviewer r = refl

  insert_role-rows :
      (uid : ℕ) (role : Role) (admin : ℕ) (s : Store) {s' : Store}
      → role_error (insert_role q uid role admin s) ≡ ok s'
      → (s'.users ≡ s.users)
        × (s'.user_roles
            ≡ s.user_roles ++ record { user_id = uid; role = role; assigned_by = some admin } ∷ [])
  unfolding insert_role role_audit record_audit
  insert_role-rows uid role admin s h = ground arith

  approve_row-Approved :
      (rid : ℕ) (r : AccountRequest) (role : Role) (reviewer : ℕ) (a : Accounts) {uid : ℕ}
      {a' : Accounts}
      → request_by_id port q rid a ≡ some r
      → fn_has_role a.store reviewer administrator ≡ true
      → approve_row port q r role reviewer a ≡ ok (uid, a')
      → Approved port q rid role reviewer uid a a'
  unfolding approve_row record_audit user_of_request set_approved new_user
  approve_row-Approved rid r role reviewer a found admin h =
      let s0 : Store = record a.store { users = a.store.users ++ user_of_request port q r ∷ [] } in
      let finish : Store → Outcome SignupError (ℕ × Accounts) = λ s. ok (
        q.new_id,
        record {
          requests =
              update_where (λ x. x.request_id == r.request_id) (set_approved port q reviewer)
                a.requests;
          store =
              record_audit q
                (done reviewer "account.approve" "Account request" (sql_request_code r.request_id)
                  (lit "Created user " ∷ val r.username ∷ []))
                s;
        },
      ) in
      let write = role_error (insert_role q q.new_id role reviewer s0) >>= finish in
      let free = not (is_name_used port q r.email r.username a.store.users) in
      let b =
        require-then (is_pending r.request_status) already_reviewed
          (require free name_is_taken >> write) h in
      let c = require-then free name_is_taken write b.1 in
      let d = bind-ok (role_error (insert_role q q.new_id role reviewer s0)) finish c.1 in
      let rows = insert_role-rows q.new_id role reviewer s0 d.1 in
      record {
        by_administrator = admin;
        former = r;
        former_found = found;
        was_pending = b.0;
        names_free = ground (arith, c.0);
        user_added = ground (arith, d.2, rows.0);
        role_given = ground (arith, d.2, rows.1);
        new_user_id = ground (arith, d.2);
        requests_after = ground (arith, d.2);
      }

  -- An approval is by an active administrator, of a pending request whose names no user has. It
  -- creates the user with the names and the hash of the request, active and free to keep the
  -- password, and gives the role; the request is approved now, keeps no hash and names its reviewer
  -- and the user.
  pub approve_request-Approved :
      (rid : ℕ) (role : Role) (reviewer : ℕ) (a : Accounts) {uid : ℕ} {a' : Accounts}
      → approve_request port q rid role reviewer a ≡ ok (uid, a')
      → Approved port q rid role reviewer uid a a'
  unfolding approve_request
  approve_request-Approved rid role reviewer a h =
      let approve : AccountRequest → Outcome SignupError (ℕ × Accounts) =
        λ r. approve_row port q r role reviewer a in
      let found = or_raise (request_by_id port q rid a) request_not_found >>= approve in
      let b =
        require-then (fn_has_role a.store reviewer administrator) only_admins_review found h in
      let c = bind-ok (or_raise (request_by_id port q rid a) request_not_found) approve b.1 in
      approve_row-Approved rid c.0 role reviewer a (ground (arith, c.1)) b.0 c.2

-- One accepted call on access requests
pub data SignupStep (port : AuthPort) (q : Request) (a a' : Accounts) : Type 0 where
  asks :
      (full_name email username password reason code : Text)
      → create_access_request port q full_name email username password reason a ≡ ok (code, a')
      → SignupStep port q a a'
  approves :
      (rid : ℕ) (role : Role) (reviewer uid : ℕ)
      → approve_request port q rid role reviewer a ≡ ok (uid, a')
      → SignupStep port q a a'
  rejects :
      (rid reviewer : ℕ) (note : Option Text)
      → reject_request port q rid reviewer note a ≡ ok a'
      → SignupStep port q a a'
  renames :
      (uid admin : ℕ) (full_name email username : Text) (changed : Bool)
      → update_user_details port q uid admin full_name email username a ≡ ok (changed, a')
      → SignupStep port q a a'

module _ (port : AuthPort) (q : Request) where
  set_rejected_valid :
      (reviewer : ℕ) (remark : Option Text) (r x : AccountRequest)
      → x ≡ r
      → is_pending r.request_status ≡ true
      → request_valid x ≡ true
      → request_valid (set_rejected port q reviewer remark x) ≡ true
  unfolding request_valid set_rejected
  set_rejected_valid reviewer remark r x same waiting v =
      let p : is_pending x.request_status ≡ true =
        ap (λ y. is_pending y.request_status) same ∙ waiting in
      ground (arith, p, v)

  reject_request-rows :
      (rid reviewer : ℕ) (given : Option Text) (a a' : Accounts)
      → reject_request port q rid reviewer given a ≡ ok a'
      → (r : AccountRequest) × (find (λ x. x.request_id == rid) a.requests ≡ some r)
        × (is_pending r.request_status ≡ true)
        × (a'.requests
            ≡ update_where
                (λ x. x.request_id == rid)
                (set_rejected port q reviewer (or_null (take 255 (strip (or_empty given)))))
                a.requests)
  unfolding reject_request request_by_id
  reject_request-rows rid reviewer given a a' h =
      elim (Option-cases (find (λ x. x.request_id == rid) a.requests)) [
        | inl e ↦ absurd (ground (arith, e))
        | inr r ↦ (r.0, r.1, ground (arith, r.1), ground (arith, r.1))
      ]

  update_user_details-rows :
      (uid admin : ℕ) (full_name email username : Text) (a a' : Accounts) (changed : Bool)
      → update_user_details port q uid admin full_name email username a ≡ ok (changed, a')
      → a'.requests ≡ a.requests
  unfolding update_user_details
  update_user_details-rows uid admin full_name email username a a' changed h = ground arith

  create_access_request-rows :
      (full_name email username password reason code : Text) (a a' : Accounts)
      → create_access_request port q full_name email username password reason a ≡ ok (code, a')
      → a'.requests ≡ a.requests ++ new_request port q full_name email username password reason ∷ []
  unfolding create_access_request
  create_access_request-rows full_name email username password reason code a a' h = ground arith

  -- If every request has a password hash exactly while it is pending, a reviewer exactly when it is
  -- not, and a created user exactly when it is approved, and request ids are distinct, then this
  -- stays so after an accepted request, approval, rejection or change of a user's details.
  pub SignupStep-AllValid :
      (a a' : Accounts)
      → AllValid a.requests
      → Distinct (λ r. r.request_id) a.requests
      → SignupStep port q a a'
      → AllValid a'.requests
  unfolding set_approved
  SignupStep-AllValid a a' v d (asks full_name email username password reason code h) =
      subst AllValid
        (sym (create_access_request-rows full_name email username password reason code a a' h))
        (All-append (λ r. request_valid r ≡ true) a.requests
          (new_request port q full_name email username password reason) v
          (new_request_valid port q full_name email username password reason))
  SignupStep-AllValid a a' v d (approves rid role reviewer uid h) =
      let r = approve_request-Approved port q rid role reviewer a h in
      subst AllValid (sym r.requests_after) (
        All-update_where (λ x. Unit {0}) (λ x. x.request_id == r.former.request_id)
          (set_approved port q reviewer) a.requests
          (λ x k p old. set_approved_valid port q reviewer x) (all_units a.requests) v)
  SignupStep-AllValid a a' v d (rejects rid reviewer given h) =
      let r = reject_request-rows rid reviewer given a a' h in
      let note = or_null (take 255 (strip (or_empty given))) in
      subst AllValid (sym r.3) (
        All-update_where (IsOnly rid r.0) (λ x. x.request_id == rid)
          (set_rejected port q reviewer note) a.requests
          (λ x k only old. set_rejected_valid reviewer note r.0 x (only k) r.2 old)
          (find-IsOnly rid a.requests r.0 d r.1) v)
  SignupStep-AllValid a a' v d (renames uid admin full_name email username changed h) =
      subst AllValid
        (sym (update_user_details-rows uid admin full_name email username a a' changed h)) v
