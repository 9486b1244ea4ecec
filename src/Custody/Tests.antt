-- ===== src/Custody/Tests.antt =====
-- Instances of the theorems about custody.
use forge_x.Shared.{
  ◌==◌, Bool-cases, find, exists, select, ℕ, ◌≡◌, refl, sym, inl, inr, true, none, some, [], ◌∷◌,
  arith,
}
use forge_x.Shared.Outcome.{Outcome, err, ok}
use forge_x.Access.{
  Role, administrator, investigator, custodian, auditor, role_eq, Actor, holds, custody_staff,
}
use forge_x.Store.{in_storage, released_item, archived_item, check_out, archived, Store}
use forge_x.Store.Roles.{is_active_user, has_role_row, fn_has_role, is_assigned, evidence_by_id}
use forge_x.Store.Sample.{sample_item, sample, sample_request}
use forge_x.Custody.{
  action_eq, allowed_from, needs_storage_location, offers, allowed_actions, custody_actions_for,
}
use forge_x.Custody.Procedures.{
  CustodyError, sql_allowed, sql_new_status, custody_row_valid, corrects_same_item, insert_custody,
  Transfer, transfer_entry, may_record, sp_transfer_evidence, latest_entry,
}
use forge_x.Custody.Latest.{IsNext}
use forge_x.Custody.Changes.{latest_entry_time, to_procedure, transfer, export_entry, record_export}
use forge_x.Custody.Inversion.{Moved, transfer-Moved}
use forge_x.Custody.InStep.{InStep}
use forge_x.Custody.History.{transfers, exports, CustodyRun, start, next, CustodyRun-InStep}
use forge_x.Custody.Table.{table_mirrors_procedure, offered_is_permitted}

abbrev checkout : Transfer
checkout = record {
  evidence_id = 5;
  expected_custodian_id = 1;
  action = check_out;
  to_custodian_id = 7;
  location_id = none;
  location_note = some (76 ∷ []);
  evidence_condition = [];
  seal_number = none;
  reason = [];
  occurred_at = some 40;
  recorded_by = 7;
}

abbrev state_of : Outcome CustodyError (ℕ × Store) → Store
state_of (ok r) = r.1
state_of (err e) = sample

lent : Store
lent = state_of (transfer sample_request checkout sample)

transfer_runs : transfer sample_request checkout sample ≡ ok (9, lent)
unfolding lent transfer needs_storage_location latest_entry_time sp_transfer_evidence evidence_by_id
    find may_record fn_has_role exists role_eq is_assigned sql_allowed sql_new_status insert_custody
    corrects_same_item transfer_entry custody_row_valid
transfer_runs = refl

sample-IsNext : IsNext sample_request sample
sample-IsNext = record { ids = omega arith; times = omega arith }

sample-InStep : InStep sample
unfolding find latest_entry
sample-InStep = record {
  agrees = λ eid item h. elim (Bool-cases (5 == eid)) [
    | inl e ↦ rw e (ground arith)
    | inr e ↦ absurd (ground arith)
  ];
}

abbrev lent_run : CustodyRun sample lent
lent_run = next start (transfers sample_request checkout 9 sample-IsNext transfer_runs)

shelved : Store
shelved = record sample { evidence = record sample_item { current_status = archived_item } ∷ [] }

abbrev store_of : Outcome CustodyError Store → Store
store_of (ok s) = s
store_of (err e) = sample

copied : Store
copied = store_of (record_export sample_request 7 [] [] 5 shelved)

export_runs : record_export sample_request 7 [] [] 5 shelved ≡ ok copied
unfolding copied shelved record_export evidence_by_id find insert_custody corrects_same_item
    export_entry custody_row_valid exists
export_runs = refl

copied_run : CustodyRun shelved copied
unfolding shelved
copied_run = next start (
    exports sample_request 7 [] [] 5 (record { ids = omega arith; times = omega arith })
      export_runs)

table_mirrors_procedure_example : sql_allowed archived released_item ≡ true
unfolding offers exists action_eq allowed_actions allowed_from
table_mirrors_procedure_example = sym (table_mirrors_procedure archived released_item).0

transfer-Moved_example : Moved sample_request (to_procedure checkout) sample lent
transfer-Moved_example = (transfer-Moved sample_request sample checkout (9, lent) transfer_runs).1

CustodyRun-InStep_example : InStep lent
CustodyRun-InStep_example = CustodyRun-InStep sample lent sample-InStep lent_run

roles_agree : (r : Role) → has_role_row sample 7 r ≡ holds r (investigator ∷ [])
unfolding has_role_row exists role_eq holds
roles_agree administrator = refl
roles_agree investigator = refl
roles_agree custodian = refl
roles_agree auditor = refl

abbrev lead_actor : Actor
lead_actor = record { user_id = 7; roles = investigator ∷ [] }

offered_is_permitted_example :
    (may_record sample checkout sample_item ≡ true) × (sql_allowed check_out in_storage ≡ true)
unfolding is_active_user exists is_assigned custody_actions_for custody_staff role_eq holds offers
    select allowed_actions allowed_from action_eq
offered_is_permitted_example =
    offered_is_permitted sample checkout sample_item lead_actor true refl refl roles_agree refl refl
