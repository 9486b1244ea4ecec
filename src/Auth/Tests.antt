-- ===== src/Auth/Tests.antt =====
-- Instances of the theorems about sign-in: user 8 of the sample store.
use forge_x.Shared.{ltb, leb, find, count, ◌≡◌, refl, none, some, [], ◌∷◌}
use forge_x.Shared.Text.{Text, codes, is_space, lstrip, strip, text_eq}
use forge_x.Shared.Outcome.{ok}
use forge_x.Store.{Store}
use forge_x.Store.Sample.{sample, sample_request}
use forge_x.Auth.{
  AuthPort, account_failures, ip_failures, is_rate_limited, record_attempt, verify_password,
  account_named, signed_in, sign_in, attempt, authenticate,
}
use forge_x.Auth.Throttle.{SignedIn, cleaned, authenticate-SignedIn}
use forge_x.Auth.Passwords.{TextRules}
use forge_x.Auth.Requests.{pending_request, AccountRequest}

-- A port whose passwords are their own hashes
abbrev port : AuthPort
port = record { same = text_eq; check = text_eq; hash = λ t. t; account_limit = 5; ip_limit = 20 }

signed : Store
signed = (authenticate port sample_request (some (8 ∷ [])) (8 ∷ []) sample).1

signs_in : authenticate port sample_request (some (8 ∷ [])) (8 ∷ []) sample ≡ (ok (8, 0), signed)
unfolding signed authenticate strip lstrip is_space is_rate_limited account_failures ip_failures
    count account_named find text_eq attempt sign_in verify_password record_attempt signed_in codes
signs_in = refl

authenticate-SignedIn_example :
    SignedIn port sample_request (cleaned (some (8 ∷ []))) (8 ∷ []) 8 0 sample signed
authenticate-SignedIn_example =
    authenticate-SignedIn port sample_request (8 ∷ []) sample (some (8 ∷ [])) 8 0 signed signs_in

-- Characters above 9 are letters, the others digits.
abbrev rules : TextRules
rules = record { is_alpha = ltb 9; is_digit = λ c. leb c 9; lowered = λ t. t; common = [] }

abbrev long_password : Text
long_password = 1 ∷ 2 ∷ 3 ∷ 4 ∷ 5 ∷ 6 ∷ 7 ∷ 8 ∷ 9 ∷ 10 ∷ 11 ∷ 12 ∷ []

abbrev applicant : AccountRequest
applicant = record {
  request_id = 1;
  full_name = [];
  email = 64 ∷ 9 ∷ [];
  username = 8 ∷ [];
  password_hash = some ([]);
  reason = none;
  request_status = pending_request;
  reviewed_by = none;
  reviewed_at = none;
  review_note = none;
  created_user_id = none;
}
