-- ===== src/Store/Sample.antt =====
-- A small store for the instances of the theorems: a case with its lead, an item of it in storage
-- and its custody log.
use forge_x.Shared.{ℕ, true, false, none, some, [], ◌∷◌}
use forge_x.Access.{administrator, investigator, open_case}
use forge_x.Store.{
  medium, in_storage, stored, UserRow, CaseRecord, vault, Evidence, CustodyEntry, Store, Request,
}

abbrev pub sample_user : ℕ → UserRow
sample_user n = record {
  user_id = n;
  full_name = [];
  email = 64 ∷ n ∷ [];
  username = n ∷ [];
  password_hash = n ∷ [];
  is_active = true;
  must_change_password = false;
  session_version = 0;
  last_login_at = none;
}

abbrev pub sample_case : CaseRecord
sample_case = record {
  case_id = 3;
  case_reference = 70 ∷ [];
  title = 84 ∷ [];
  description = 68 ∷ [];
  case_type_id = 1;
  priority = medium;
  status = open_case;
  due_date = none;
  created_by = 1;
  created_at = 10;
  updated_at = 10;
  closed_at = none;
  closure_summary = none;
}

abbrev pub sample_item : Evidence
sample_item = record {
  evidence_id = 5;
  evidence_code = 69 ∷ [];
  case_id = 3;
  evidence_type_id = 1;
  description = [];
  source_details = none;
  size_bytes = none;
  collected_at = 20;
  collected_by = 1;
  collection_site = 83 ∷ [];
  collection_condition = [];
  current_status = in_storage;
  current_custodian_id = 1;
  current_location_id = some 2;
  updated_at = 30;
}

abbrev pub sample_entry : CustodyEntry
sample_entry = record {
  custody_id = 1;
  evidence_id = 5;
  action = stored;
  from_custodian_id = some 1;
  to_custodian_id = 1;
  location_id = some 2;
  location_note = none;
  evidence_condition = [];
  seal_number = none;
  reason = [];
  occurred_at = 30;
  recorded_by = 1;
  recorded_at = 30;
  corrects_custody_id = none;
}

-- User 1 is an administrator, user 7 the lead investigator of case 3, user 8 another investigator.
abbrev pub sample : Store
sample = record {
  users = sample_user 1 ∷ sample_user 7 ∷ sample_user 8 ∷ [];
  user_roles =
      record { user_id = 1; role = administrator; assigned_by = none }
      ∷ record { user_id = 7; role = investigator; assigned_by = some 1 }
      ∷ record { user_id = 8; role = investigator; assigned_by = some 1 }
      ∷ [];
  cases = sample_case ∷ [];
  assignments = record { case_id = 3; user_id = 7; is_lead = true; assigned_by = 1 } ∷ [];
  case_types = record { case_type_id = 1; type_name = 84 ∷ []; is_active = true } ∷ [];
  locations =
      record {
        location_id = 2;
        location_name = 86 ∷ [];
        location_type = vault;
        description = none;
        is_active = true;
      }
      ∷ [];
  evidence = sample_item ∷ [];
  custody = sample_entry ∷ [];
  hashes = [];
  verifications = [];
  examinations = [];
  exam_evidence = [];
  reports = [];
  versions = [];
  report_exams = [];
  notes = [];
  logins = [];
  counters = [];
  audit = [];
}

abbrev pub sample_request : Request
sample_request = record { now = 50; ip = none; new_id = 9 }
