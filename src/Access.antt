-- ===== src/Access.antt =====
-- app/access.py and the role names of app/auth/decorators.py: who may see and change what. A row
-- is the record of the columns that the checks read; a user is an id and the role names held.
pub mod Matrix
pub mod Tests
use forge_x.Shared.{
  ◌==◌, if◌then◌else◌, holds_id, is_some, exists, ℕ, Bool, true, false, not, ◌&&◌, ◌||◌, Option,
  none, some, List, [], ◌∷◌,
}
use forge_x.Shared.Text.{Text}

pub data Role : Type 0 where
  administrator investigator custodian auditor : Role

unfoldable pub role_eq : Role → Role → Bool
role_eq administrator administrator = true
role_eq investigator investigator = true
role_eq custodian custodian = true
role_eq auditor auditor = true
role_eq _ _ = false

pub data CaseStatus : Type 0 where
  open_case in_progress_case on_hold closed : CaseStatus

pub data ExamStatus : Type 0 where
  pending in_progress exam_review completed cancelled : ExamStatus

pub data ReportStatus : Type 0 where
  draft report_review approved : ReportStatus

abbrev pub is_closed : CaseStatus → Bool
is_closed closed = true
is_closed _ = false

-- `exam["status"] in ("Pending", "In Progress")`
abbrev pub is_workable : ExamStatus → Bool
is_workable pending = true
is_workable in_progress = true
is_workable _ = false

abbrev pub is_exam_review : ExamStatus → Bool
is_exam_review exam_review = true
is_exam_review _ = false

abbrev pub is_draft : ReportStatus → Bool
is_draft draft = true
is_draft _ = false

abbrev pub is_report_review : ReportStatus → Bool
is_report_review report_review = true
is_report_review _ = false

pub record Actor : Type 0 where
  pub user_id : ℕ
  pub roles : List Role

pub record CaseRow : Type 0 where
  pub status : CaseStatus
  pub lead_user_id : Option ℕ

pub record ItemRow : Type 0 where
  pub case_status : CaseStatus
  pub lead_user_id : Option ℕ
  pub current_hash_value : Option Text

pub record ExamRow : Type 0 where
  pub status : ExamStatus
  pub case_status : CaseStatus
  pub examiner_id : ℕ
  pub lead_user_id : Option ℕ

pub record ReportRow : Type 0 where
  pub status : ReportStatus
  pub case_status : CaseStatus
  pub author_id : ℕ

-- `role in user["roles"]`
unfoldable pub holds : Role → List Role → Bool
holds r [] = false
holds r (x ∷ xs) = role_eq r x || holds r xs

-- `bool({...} & set(user["roles"]))`
unfoldable pub holds_any : List Role → List Role → Bool
holds_any [] rs = false
holds_any (w ∷ ws) rs = holds w rs || holds_any ws rs

unfoldable pub has_role : Option Actor → List Role → Bool
unfolding holds_any
has_role none wanted = false
has_role (some user) wanted = holds_any wanted user.roles

abbrev lab_wide_roles : List Role
lab_wide_roles = administrator ∷ auditor ∷ custodian ∷ []

-- `case_filter` and `params` as the id that the filter compares with, if there is a filter.
pub record Scope : Type 0 where
  pub user_id : ℕ
  pub lab_wide : Bool
  pub sees_all_activity : Bool
  pub only_assigned_to : Option ℕ

unfoldable pub scope_of : Actor → Scope
unfolding holds_any
scope_of user =
    let wide = holds_any lab_wide_roles user.roles in
    record {
      user_id = user.user_id;
      lab_wide = wide;
      sees_all_activity = holds_any (administrator ∷ auditor ∷ []) user.roles;
      only_assigned_to = if wide then none else some user.user_id;
    }

-- `c.case_id IN (SELECT ci.case_id FROM case_investigators ci WHERE ci.user_id = %s)` on the
-- (case, user) pairs of case_investigators, as the scope's filter adds it to a query.
unfoldable pub visible : Scope → List (ℕ × ℕ) → ℕ → Bool
visible scope assignments case_id = elim scope.only_assigned_to [
  | none ↦ true
  | some uid ↦ exists (λ a. a.0 == case_id && a.1 == uid) assignments
]

unfoldable pub is_admin : Actor → Bool
is_admin user = holds administrator user.roles

unfoldable pub can_create_case : Actor → Bool
unfolding holds_any
can_create_case user = holds_any (administrator ∷ investigator ∷ []) user.roles

unfoldable pub can_manage_case : Actor → CaseRow → Bool
unfolding is_admin
can_manage_case user case =
    if is_closed case.status
    then false
    else is_admin user || holds_id case.lead_user_id user.user_id

unfoldable pub can_register_evidence : Actor → Bool
unfolding holds_any
can_register_evidence user = holds_any (administrator ∷ custodian ∷ investigator ∷ []) user.roles

unfoldable pub registers_for_any_case : Actor → Bool
unfolding holds_any
registers_for_any_case user = holds_any (administrator ∷ custodian ∷ []) user.roles

unfoldable pub can_edit_evidence : Actor → ItemRow → Bool
unfolding holds_any
can_edit_evidence user item =
    if is_closed item.case_status
    then false
    else holds_any (administrator ∷ custodian ∷ []) user.roles
      || holds_id item.lead_user_id user.user_id

unfoldable pub custody_staff : Actor → Bool
unfolding holds_any
custody_staff user = holds_any (administrator ∷ custodian ∷ []) user.roles

unfoldable pub can_verify_hash : Actor → Bool → Bool
unfolding custody_staff
can_verify_hash user assigned = custody_staff user || (holds investigator user.roles && assigned)

-- A hash value is never the empty text (CHECK chk_eh_format), so `not value` is `value is None`.
unfoldable pub can_record_hash : Actor → ItemRow → Bool → Bool
unfolding can_verify_hash
can_record_hash user item assigned =
    not (is_closed item.case_status)
    && not (is_some item.current_hash_value)
    && can_verify_hash user assigned

unfoldable pub can_correct_records : Actor → Bool
unfolding custody_staff
can_correct_records user = custody_staff user

unfoldable pub can_create_examination : Actor → CaseRow → Bool → Bool
can_create_examination user case assigned =
    not (is_closed case.status)
    && (holds administrator user.roles || (holds investigator user.roles && assigned))

unfoldable pub can_work_on_examination : Actor → ExamRow → Bool
can_work_on_examination user exam =
    if not (is_workable exam.status) || is_closed exam.case_status
    then false
    else holds administrator user.roles
      || (user.user_id == exam.examiner_id || holds_id exam.lead_user_id user.user_id)

unfoldable pub can_write_report : Actor → CaseRow → Bool → Bool
can_write_report user case assigned =
    not (is_closed case.status)
    && (holds administrator user.roles || (holds investigator user.roles && assigned))

unfoldable pub can_edit_report : Actor → ReportRow → Bool
can_edit_report user report =
    is_draft report.status
    && not (is_closed report.case_status)
    && (holds administrator user.roles || user.user_id == report.author_id)

unfoldable pub can_review_report : Actor → ReportRow → Bool
can_review_report user report =
    is_report_review report.status
    && not (is_closed report.case_status)
    && holds administrator user.roles
    && not (user.user_id == report.author_id)

unfoldable pub can_add_case_note : Actor → CaseRow → Bool → Bool
unfolding holds_any
can_add_case_note user case assigned =
    if is_closed case.status
    then false
    else holds_any (administrator ∷ custodian ∷ []) user.roles
      || (holds investigator user.roles && assigned)

unfoldable pub can_review_examination : Actor → ExamRow → Bool
can_review_examination user exam =
    if not (is_exam_review exam.status) || is_closed exam.case_status
    then false
    else if user.user_id == exam.examiner_id
    then false
    else holds administrator user.roles || holds_id exam.lead_user_id user.user_id
