-- ===== src/Cases/Tests.antt =====
-- Instances of the theorems about cases: case 3 of the sample store.
use forge_x.Shared.{find, exists, all, ◌≡◌, refl, true, false, Option, none, some, [], ◌∷◌}
use forge_x.Shared.Text.{Text, codes, is_space, lstrip, strip, upper, text_eq}
use forge_x.Shared.Outcome.{Outcome, err, ok, is_ok}
use forge_x.Access.{administrator, role_eq, open_case, closed, Actor, holds}
use forge_x.Store.{high, CaseRecord, Store}
use forge_x.Store.Roles.{has_role_row, fn_has_role, fn_is_case_lead, case_by_id}
use forge_x.Store.Sample.{sample_case, sample, sample_request}
use forge_x.Cases.{
  CaseError, case_valid, update_cases, sp_assign_investigator, sp_remove_investigator, set_closed,
  close_row, sp_close_case,
}
use forge_x.Cases.Services.{
  lock_case, CaseEdit, update_case, change_status, no_blockers, delete_case,
}
use forge_x.Cases.Closure.{
  Closed, sp_close_case-Closed, closed_is_read_only, Deleted, delete_case-Deleted,
}

abbrev state_of : Outcome CaseError Store → Store
state_of (ok s) = s
state_of (err e) = sample

shut : Store
shut = state_of (sp_close_case (λ t. t) sample_request 3 (68 ∷ []) 7 sample)

closing : sp_close_case (λ t. t) sample_request 3 (68 ∷ []) 7 sample ≡ ok shut
unfolding shut sp_close_case case_by_id find close_row fn_has_role has_role_row exists role_eq
    fn_is_case_lead all update_cases case_valid set_closed
closing = refl

sp_close_case-Closed_example : Closed (λ t. t) sample_request 3 (68 ∷ []) 7 sample shut
sp_close_case-Closed_example =
    sp_close_case-Closed (λ t. t) sample_request 3 (68 ∷ []) 7 sample shut closing

abbrev closed_case : CaseRecord
closed_case = record sample_case {
  status = closed;
  closed_at = some 40;
  closure_summary = some (68 ∷ []);
}

with_closed : Store
with_closed = record sample { cases = closed_case ∷ [] }

abbrev administrator_actor : Actor
administrator_actor = record { user_id = 1; roles = administrator ∷ [] }

abbrev edit : CaseEdit
edit = record {
  title = 85 ∷ [];
  description = [];
  case_type_id = 1;
  priority = high;
  due_date = none;
  expected_version = 10;
}

closed_is_read_only_example :
    (is_ok (update_case (λ t. t) sample_request 3 administrator_actor edit with_closed) ≡ false)
    × (is_ok (change_status (λ t. t) sample_request 3 administrator_actor open_case with_closed)
        ≡ false)
    × (is_ok (sp_assign_investigator sample_request 3 8 true 1 with_closed) ≡ false)
    × (is_ok (sp_remove_investigator sample_request 3 8 1 with_closed) ≡ false)
    × (is_ok (sp_close_case (λ t. t) sample_request 3 (68 ∷ []) 1 with_closed) ≡ false)
    × (is_ok (delete_case sample_request 3 administrator_actor none (70 ∷ []) with_closed) ≡ false)
unfolding with_closed case_by_id find
closed_is_read_only_example =
    closed_is_read_only (λ t. t) sample_request 3 administrator_actor edit open_case 8 true
      (68 ∷ []) none (70 ∷ []) with_closed closed_case refl refl

empty_case : Store
empty_case = record sample { evidence = []; custody = [] }

abbrev mistake : Option Text
mistake = some (codes "registered twice")

deleted_of : Outcome CaseError (Text × Store) → Store
deleted_of (ok r) = r.1
deleted_of (err e) = sample

gone : Store
gone = deleted_of (delete_case sample_request 3 administrator_actor mistake (70 ∷ []) empty_case)

deleting :
    delete_case sample_request 3 administrator_actor mistake (70 ∷ []) empty_case
    ≡ ok (70 ∷ [], gone)
unfolding gone deleted_of empty_case delete_case holds role_eq strip lstrip is_space codes lock_case
    case_by_id find upper text_eq no_blockers exists
deleting = refl

delete_case-Deleted_example :
    Deleted sample_request 3 administrator_actor mistake (70 ∷ []) empty_case gone
delete_case-Deleted_example =
    delete_case-Deleted sample_request 3 administrator_actor mistake (70 ∷ []) empty_case gone
      (70 ∷ []) deleting
