-- ===== src/Store/Roles.antt =====
-- The lookups that the procedures share: fn_has_role and fn_is_case_lead of
-- database/procedures.sql, the lead of a case and the rows by their keys.
use forge_x.Shared.{◌==◌, find, exists, ℕ, Bool, ◌&&◌, Option, none, some}
use forge_x.Access.{Role, role_eq}
use forge_x.Store.{UserRow, CaseRecord, Assignment, Evidence, Store}

-- `account_status = 'Active'` of the user with this id
unfoldable pub is_active_user : Store → ℕ → Bool
is_active_user s uid = exists (λ u. u.user_id == uid && u.is_active) s.users

unfoldable pub has_role_row : Store → ℕ → Role → Bool
has_role_row s uid role = exists (λ r. r.user_id == uid && role_eq r.role role) s.user_roles

-- fn_has_role
unfoldable pub fn_has_role : Store → ℕ → Role → Bool
unfolding is_active_user has_role_row
fn_has_role s uid role = has_role_row s uid role && is_active_user s uid

-- fn_is_case_lead
unfoldable pub fn_is_case_lead : Store → ℕ → ℕ → Bool
fn_is_case_lead s uid cid =
    exists (λ a. a.case_id == cid && a.user_id == uid && a.is_lead) s.assignments

-- EXISTS (SELECT 1 FROM case_investigators WHERE case_id = … AND user_id = …)
unfoldable pub is_assigned : Store → ℕ → ℕ → Bool
is_assigned s uid cid = exists (λ a. a.case_id == cid && a.user_id == uid) s.assignments

unfoldable pub case_by_id : Store → ℕ → Option CaseRecord
case_by_id s cid = find (λ c. c.case_id == cid) s.cases

unfoldable pub evidence_by_id : Store → ℕ → Option Evidence
evidence_by_id s eid = find (λ e. e.evidence_id == eid) s.evidence

unfoldable pub user_by_id : Store → ℕ → Option UserRow
user_by_id s uid = find (λ u. u.user_id == uid) s.users

abbrev user_of : Option Assignment → Option ℕ
user_of none = none
user_of (some a) = some a.user_id

-- LEFT JOIN case_investigators ci ON ci.case_id = c.case_id AND ci.is_lead = TRUE
unfoldable pub lead_of : Store → ℕ → Option ℕ
lead_of s cid = user_of (find (λ a. a.case_id == cid && a.is_lead) s.assignments)

unfoldable pub location_is_active : Store → ℕ → Bool
location_is_active s lid = exists (λ l. l.location_id == lid && l.is_active) s.locations
