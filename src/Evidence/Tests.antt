-- ===== src/Evidence/Tests.antt =====
-- Instances of the theorems about the registration of evidence.
use forge_x.Shared.{
  ◌==◌, Bool-cases, find, exists, select, ◌≡◌, refl, inl, inr, Bool, true, false, none, some, [],
  ◌∷◌, arith,
}
use forge_x.Shared.Text.{Text, codes, text_eq, opt_text_eq}
use forge_x.Shared.Outcome.{Outcome, err, ok}
use forge_x.Access.{
  administrator, investigator, role_eq, Actor, holds, holds_any, registers_for_any_case,
  can_edit_evidence,
}
use forge_x.Store.{computed, Store}
use forge_x.Store.Roles.{
  is_active_user, has_role_row, fn_has_role, is_assigned, case_by_id, evidence_by_id,
}
use forge_x.Store.Sequence.{ensure_counter, last_number, next_reference, business_code}
use forge_x.Store.Sample.{sample_item, sample, sample_request}
use forge_x.Custody.Procedures.{custody_row_valid, corrects_same_item, insert_custody, latest_entry}
use forge_x.Custody.InStep.{InStep}
use forge_x.Evidence.{
  EvidenceError, registrable_cases, NewIds, Registration, new_item, first_entry, item_valid,
  insert_first_hash, insert_registered, sp_register_evidence, to_sp, register_evidence, ItemEdit,
  item_changes, item_view, edit_found, update_evidence,
}
use forge_x.Evidence.Registered.{
  Registered, register_evidence-Registered, Edited, update_evidence-Edited,
}
use forge_x.Evidence.InStep.{registers, EvidenceStep-InStep}

abbrev finder : Actor
finder = record { user_id = 7; roles = investigator ∷ [] }

abbrev laptop : Registration
laptop = record {
  case_id = 3;
  evidence_type_id = 1;
  description = 76 ∷ [];
  source_details = none;
  size_bytes = none;
  collected_at = 45;
  collected_by = 7;
  collection_site = 83 ∷ [];
  collection_condition = 67 ∷ [];
  seal_number = none;
  hash_value = none;
  hash_source = computed;
  hash_notes = none;
  registered_by = 0;
}

abbrev ids : NewIds
ids = record { evidence_id = 9; custody_id = 9; hash_id = 9 }

abbrev result_of : Outcome EvidenceError (Text × Store) → Text × Store
result_of (ok r) = r
result_of (err e) = ([], sample)

taken : Text × Store
taken = result_of (register_evidence sample_request (1 ∷ []) 2026 ids finder laptop sample)

registration_runs :
    register_evidence sample_request (1 ∷ []) 2026 ids finder laptop sample ≡ ok (taken.0, taken.1)
unfolding taken register_evidence sp_register_evidence insert_registered insert_first_hash
    item_valid new_item first_entry to_sp registrable_cases registers_for_any_case holds_any select
    exists is_assigned case_by_id find fn_has_role has_role_row role_eq is_active_user
    insert_custody corrects_same_item custody_row_valid next_reference ensure_counter last_number
    business_code holds text_eq codes
registration_runs = refl

register_evidence-Registered_example :
    Registered sample_request ids finder laptop taken.0 sample taken.1
register_evidence-Registered_example =
    register_evidence-Registered sample_request (1 ∷ []) 2026 ids finder laptop sample
      registration_runs

unused : exists (λ i. i.evidence_id == 9) sample.evidence ≡ false
unfolding exists
unused = refl

silent : latest_entry 9 sample.custody ≡ none
unfolding latest_entry
silent = refl

sample-InStep : InStep sample
unfolding find latest_entry
sample-InStep = record {
  agrees = λ eid item h. elim (Bool-cases (5 == eid)) [
    | inl e ↦ rw e (ground arith)
    | inr e ↦ absurd (ground arith)
  ];
}

EvidenceStep-InStep_example : InStep taken.1
EvidenceStep-InStep_example =
    EvidenceStep-InStep sample_request sample taken.1 sample-InStep
      (registers (1 ∷ []) 2026 ids finder laptop taken.0 unused silent registration_runs)

abbrev staff : Actor
staff = record { user_id = 1; roles = administrator ∷ [] }

abbrev correction : ItemEdit
correction = record {
  description = 77 ∷ [];
  source_details = none;
  size_bytes = some 4;
  collection_site = [];
  expected_version = sample_item.updated_at;
}

abbrev store_of : Outcome EvidenceError (Bool × Store) → Store
store_of (ok r) = r.1
store_of (err e) = sample

edited : Store
edited = store_of (update_evidence sample_request staff 5 correction sample)

edit_runs : update_evidence sample_request staff 5 correction sample ≡ ok (true, edited)
unfolding edited update_evidence edit_found evidence_by_id case_by_id find item_view
    can_edit_evidence holds_any exists item_changes text_eq role_eq holds opt_text_eq
edit_runs = refl

update_evidence-Edited_example : Edited sample_request staff 5 correction true sample edited
update_evidence-Edited_example =
    update_evidence-Edited sample_request staff 5 correction sample edit_runs
