-- ===== src/Signup/Tests.antt =====
-- Instances of the theorems about access requests: an administrator approves one.
use forge_x.Shared.{find, exists, ℕ, ◌≡◌, refl, none, some, [], ◌∷◌}
use forge_x.Shared.Text.{text_eq}
use forge_x.Shared.Tables.{Distinct}
use forge_x.Shared.Outcome.{Outcome, err, ok}
use forge_x.Access.{investigator, role_eq}
use forge_x.Store.Roles.{is_active_user, has_role_row, fn_has_role}
use forge_x.Store.Sample.{sample, sample_request}
use forge_x.Users.{insert_role, new_user}
use forge_x.Auth.{AuthPort}
use forge_x.Auth.Requests.{pending_request, AccountRequest}
use forge_x.Signup.{
  SignupError, Accounts, request_valid, request_by_id, user_of_request, is_name_used, approve_row,
  approve_request,
}
use forge_x.Signup.Reviewed.{
  AllValid, Approved, approve_request-Approved, approves, SignupStep-AllValid,
}

abbrev plain_port : AuthPort
plain_port = record {
  same = text_eq;
  check = text_eq;
  hash = λ t. t;
  account_limit = 5;
  ip_limit = 20;
}

abbrev wish : AccountRequest
wish = record {
  request_id = 4;
  full_name = 65 ∷ [];
  email = 66 ∷ [];
  username = 67 ∷ [];
  password_hash = some (68 ∷ []);
  reason = none;
  request_status = pending_request;
  reviewed_by = none;
  reviewed_at = none;
  review_note = none;
  created_user_id = none;
}

abbrev waiting : Accounts
waiting = record { store = sample; requests = wish ∷ [] }

abbrev result_of : Outcome SignupError (ℕ × Accounts) → ℕ × Accounts
result_of (ok r) = r
result_of (err e) = (0, waiting)

welcomed : ℕ × Accounts
welcomed = result_of (approve_request plain_port sample_request 4 investigator 1 waiting)

approval_runs :
    approve_request plain_port sample_request 4 investigator 1 waiting ≡ ok (welcomed.0, welcomed.1)
unfolding welcomed approve_request request_by_id find approve_row is_name_used exists insert_role
    fn_has_role has_role_row role_eq is_active_user text_eq user_of_request new_user
approval_runs = refl

wish-AllValid : AllValid waiting.requests
unfolding request_valid
wish-AllValid = (refl, tt)

one_request : Distinct (λ r. r.request_id) waiting.requests
unfolding Distinct
one_request = (tt, tt)

approve_request-Approved_example :
    Approved plain_port sample_request 4 investigator 1 welcomed.0 waiting welcomed.1
approve_request-Approved_example =
    approve_request-Approved plain_port sample_request 4 investigator 1 waiting approval_runs

SignupStep-AllValid_example : AllValid welcomed.1.requests
SignupStep-AllValid_example =
    SignupStep-AllValid plain_port sample_request waiting welcomed.1 wish-AllValid one_request
      (approves 4 investigator 1 welcomed.0 approval_runs)
