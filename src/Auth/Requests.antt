-- ===== src/Auth/Requests.antt =====
-- Access requests of app/auth/services.py and where sign-in may redirect to. The pending requests are
-- an argument; urlparse, which splits a target into its scheme and its host, is a parameter.
use forge_x.Shared.{
  ◌==◌, length, take, exists, ℕ, ◌≡◌, refl, Bool, true, false, not, ◌&&◌, ◌||◌, Option, List, [],
  ◌∷◌, arith,
}
use forge_x.Shared.Text.{Text, text_eq}
use forge_x.Store.{UserRow}
use forge_x.Auth.{AuthPort}

pub data RequestStatus : Type 0 where
  pending_request approved_request rejected_request : RequestStatus

pub record AccountRequest : Type 0 where
  pub request_id : ℕ
  pub full_name : Text
  pub email : Text
  pub username : Text
  pub password_hash : Option Text
  pub reason : Option Text
  pub request_status : RequestStatus
  pub reviewed_by : Option ℕ
  pub reviewed_at : Option ℕ
  pub review_note : Option Text
  pub created_user_id : Option ℕ

abbrev pub is_pending : RequestStatus → Bool
is_pending pending_request = true
is_pending approved_request = false
is_pending rejected_request = false

-- What `signup_conflicts` finds
pub record Conflicts : Type 0 where
  pub username_taken : Bool
  pub email_taken : Bool

unfoldable pub signup_conflicts :
    AuthPort → Text → Text → List UserRow → List AccountRequest → Conflicts
signup_conflicts port username email us requests = record {
  username_taken =
      exists (λ u. port.same u.username username) us
      || exists (λ r. is_pending r.request_status && port.same r.username username) requests;
  email_taken =
      exists (λ u. port.same u.email email) us
      || exists (λ r. is_pending r.request_status && port.same r.email email) requests;
}

-- trg_ar_unique_vs_users and the unique keys of pending requests
unfoldable pub request_allowed :
    AuthPort → AccountRequest → List UserRow → List AccountRequest → Bool
request_allowed port r us requests =
    not (exists (λ u. port.same u.username r.username || port.same u.email r.email) us)
    && not (exists (λ x. is_pending x.request_status && port.same x.username r.username) requests)
    && not (exists (λ x. is_pending x.request_status && port.same x.email r.email) requests)

unfoldable pub is_safe_next : (scheme host : Text → Text) → Text → Bool
is_safe_next scheme host [] = false
is_safe_next scheme host (c ∷ t) =
    c == 47
    && not (text_eq (take 1 t) (47 ∷ []))
    && not (exists (λ d. d == 92) (c ∷ t))
    && length (scheme (c ∷ t)) == 0
    && length (host (c ∷ t)) == 0

exists_or :
    {A : Type 0} (p q : A → Bool) (xs : List A)
    → exists (λ x. p x || q x) xs ≡ (exists p xs || exists q xs)
unfolding exists
exists_or p q [] = refl
exists_or p q (x ∷ xs) = ground (arith, exists_or p q xs)

-- The form's check agrees with the database's: a request conflicts in its username or its email
-- exactly if the trigger or a unique key would refuse its row.
pub signup_conflicts-refused :
    (port : AuthPort) (r : AccountRequest) (us : List UserRow) (requests : List AccountRequest)
    → let c = signup_conflicts port r.username r.email us requests in
      (c.username_taken || c.email_taken) ≡ not (request_allowed port r us requests)
unfolding signup_conflicts request_allowed
signup_conflicts-refused port r us requests =
    ground
      (arith, exists_or (λ u. port.same u.username r.username) (λ u. port.same u.email r.email) us)
