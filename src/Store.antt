-- ===== src/Store.antt =====
-- The rows of database/schema.sql that the services read and write, and the store that holds them:
-- one list for each table, in the order of insertion. DATETIMEs are numbers of seconds, DATEs are
-- numbers of days, ids are numbers. Columns that no service decides on are left out.
pub mod Roles
pub mod Audit
pub mod Sequence
pub mod Sample
use forge_x.Shared.{ℕ, String, Bool, true, false, Option, List}
use forge_x.Shared.Text.{Text}
use forge_x.Access.{
  Role, CaseStatus, open_case, in_progress_case, on_hold, closed, ExamStatus, ReportStatus,
}

pub data Priority : Type 0 where
  low medium high critical : Priority

pub data ItemStatus : Type 0 where
  in_transit in_storage checked_out under_examination released_item archived_item : ItemStatus

pub data Action : Type 0 where
  collected received transferred check_out examined : Action
  returned stored released archived exported : Action

pub data HashSource : Type 0 where
  computed manual : HashSource

pub data HashMethod : Type 0 where
  sample_file manual_entry stored_file : HashMethod

pub data HashResult : Type 0 where
  verified failed : HashResult

pub data AuditOutcome : Type 0 where
  success failure denied : AuditOutcome

pub data LoginFailure : Type 0 where
  invalid_credentials account_inactive rate_limited : LoginFailure

pub record UserRow : Type 0 where
  pub user_id : ℕ
  pub full_name : Text
  pub email : Text
  pub username : Text
  pub password_hash : Text
  pub is_active : Bool
  pub must_change_password : Bool
  pub session_version : ℕ
  pub last_login_at : Option ℕ

pub record UserRole : Type 0 where
  pub user_id : ℕ
  pub role : Role
  pub assigned_by : Option ℕ

pub record CaseRecord : Type 0 where
  pub case_id : ℕ
  pub case_reference : Text
  pub title : Text
  pub description : Text
  pub case_type_id : ℕ
  pub priority : Priority
  pub status : CaseStatus
  pub due_date : Option ℕ
  pub created_by : ℕ
  pub created_at : ℕ
  pub updated_at : ℕ
  pub closed_at : Option ℕ
  pub closure_summary : Option Text

pub record Assignment : Type 0 where
  pub case_id : ℕ
  pub user_id : ℕ
  pub is_lead : Bool
  pub assigned_by : ℕ

pub record CaseType : Type 0 where
  pub case_type_id : ℕ
  pub type_name : Text
  pub is_active : Bool

pub data LocationType : Type 0 where
  vault evidence_room examination_lab imaging_bench other_place : LocationType

pub record Location : Type 0 where
  pub location_id : ℕ
  pub location_name : Text
  pub location_type : LocationType
  pub description : Option Text
  pub is_active : Bool

pub record Evidence : Type 0 where
  pub evidence_id : ℕ
  pub evidence_code : Text
  pub case_id : ℕ
  pub evidence_type_id : ℕ
  pub description : Text
  pub source_details : Option Text
  pub size_bytes : Option ℕ
  pub collected_at : ℕ
  pub collected_by : ℕ
  pub collection_site : Text
  pub collection_condition : Text
  pub current_status : ItemStatus
  pub current_custodian_id : ℕ
  pub current_location_id : Option ℕ
  pub updated_at : ℕ

pub record CustodyEntry : Type 0 where
  pub custody_id : ℕ
  pub evidence_id : ℕ
  pub action : Action
  pub from_custodian_id : Option ℕ
  pub to_custodian_id : ℕ
  pub location_id : Option ℕ
  pub location_note : Option Text
  pub evidence_condition : Text
  pub seal_number : Option Text
  pub reason : Text
  pub occurred_at : ℕ
  pub recorded_by : ℕ
  pub recorded_at : ℕ
  pub corrects_custody_id : Option ℕ

pub record HashRow : Type 0 where
  pub hash_id : ℕ
  pub evidence_id : ℕ
  pub hash_value : Text
  pub source : HashSource
  pub source_notes : Option Text
  pub recorded_by : ℕ
  pub supersedes_hash_id : Option ℕ
  pub correction_reason : Option Text

pub record Verification : Type 0 where
  pub verification_id : ℕ
  pub hash_id : ℕ
  pub computed_hash : Text
  pub result : HashResult
  pub method : HashMethod
  pub sample_file_name : Option Text
  pub sample_size_bytes : Option ℕ
  pub notes : Option Text
  pub verified_by : ℕ

pub record Examination : Type 0 where
  pub examination_id : ℕ
  pub examination_code : Text
  pub case_id : ℕ
  pub examination_type_id : ℕ
  pub examiner_id : ℕ
  pub status : ExamStatus
  pub due_date : Option ℕ
  pub started_at : Option ℕ
  pub submitted_at : Option ℕ
  pub completed_at : Option ℕ
  pub reviewed_by : Option ℕ
  pub review_note : Option Text
  pub tools_methods : Option Text
  pub observations : Option Text
  pub findings : Option Text
  pub conclusion : Option Text
  pub limitations : Option Text
  pub cancel_reason : Option Text

pub record Report : Type 0 where
  pub report_id : ℕ
  pub report_code : Text
  pub case_id : ℕ
  pub title : Text
  pub author_id : ℕ
  pub status : ReportStatus
  pub submitted_at : Option ℕ
  pub approved_by : Option ℕ
  pub approved_at : Option ℕ

pub record Sections : Type 0 where
  pub methodology : Text
  pub observations : Text
  pub findings : Text
  pub conclusions : Text
  pub limitations : Text

pub record ReportVersion : Type 0 where
  pub report_id : ℕ
  pub version_no : ℕ
  pub sections : Sections
  pub change_note : Text
  pub created_by : ℕ

pub record CaseNote : Type 0 where
  pub note_id : ℕ
  pub case_id : ℕ
  pub note_text : Text
  pub reference : Option Text
  pub corrects_note_id : Option ℕ
  pub author_id : ℕ

pub record AuditRow : Type 0 where
  pub user_id : Option ℕ
  pub action : Text
  pub entity_type : String
  pub entity_ref : Option Text
  pub outcome : AuditOutcome
  pub details : Option Text
  pub ip_address : Option Text

pub record LoginAttempt : Type 0 where
  pub username_or_email : Text
  pub user_id : Option ℕ
  pub success : Bool
  pub failure_reason : Option LoginFailure
  pub ip_address : Text
  pub attempted_at : ℕ

pub record Counter : Type 0 where
  pub seq_name : ℕ
  pub seq_year : ℕ
  pub last_number : ℕ

pub record Store : Type 0 where
  pub users : List UserRow
  pub user_roles : List UserRole
  pub cases : List CaseRecord
  pub assignments : List Assignment
  pub case_types : List CaseType
  pub locations : List Location
  pub evidence : List Evidence
  pub custody : List CustodyEntry
  pub hashes : List HashRow
  pub verifications : List Verification
  pub examinations : List Examination
  pub exam_evidence : List (ℕ × ℕ)
  pub reports : List Report
  pub versions : List ReportVersion
  pub report_exams : List (ℕ × ℕ)
  pub notes : List CaseNote
  pub logins : List LoginAttempt
  pub counters : List Counter
  pub audit : List AuditRow

-- What MySQL and Flask give a request: NOW(), the address of the client, and the id that
-- AUTO_INCREMENT hands to the row inserted (LAST_INSERT_ID()).
pub record Request : Type 0 where
  pub now : ℕ
  pub ip : Option Text
  pub new_id : ℕ

-- ENUM comparisons
unfoldable pub item_status_eq : ItemStatus → ItemStatus → Bool
item_status_eq in_transit in_transit = true
item_status_eq in_storage in_storage = true
item_status_eq checked_out checked_out = true
item_status_eq under_examination under_examination = true
item_status_eq released_item released_item = true
item_status_eq archived_item archived_item = true
item_status_eq _ _ = false

unfoldable pub case_status_eq : CaseStatus → CaseStatus → Bool
case_status_eq open_case open_case = true
case_status_eq in_progress_case in_progress_case = true
case_status_eq on_hold on_hold = true
case_status_eq closed closed = true
case_status_eq _ _ = false

unfoldable pub priority_eq : Priority → Priority → Bool
priority_eq low low = true
priority_eq medium medium = true
priority_eq high high = true
priority_eq critical critical = true
priority_eq _ _ = false

-- `status IN ('In Transit','Checked Out','Under Examination')`
abbrev pub is_out : ItemStatus → Bool
is_out in_transit = true
is_out checked_out = true
is_out under_examination = true
is_out _ = false
