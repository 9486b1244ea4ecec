-- ===== src/Access/Matrix.antt =====
-- The permission matrix of app/access.py: what closure, the auditor's role and independent review
-- rule out, and which cases a user sees.
use forge_x.Shared.{
  ◌==◌, holds_id, exists, ℕ, ◌≡◌, refl, ◌≢◌, ◌↔◌, Bool, true, false, ◌&&◌, ◌||◌, List, [], ◌∷◌,
  arith,
}
use forge_x.Access.{
  administrator, custodian, auditor, role_eq, closed, ReportStatus, draft, report_review, approved,
  is_closed, Actor, CaseRow, ItemRow, ExamRow, ReportRow, holds, scope_of, visible, can_create_case,
  can_manage_case, can_register_evidence, can_edit_evidence, can_verify_hash, can_record_hash,
  can_correct_records, can_create_examination, can_work_on_examination, can_write_report,
  can_edit_report, can_review_report, can_add_case_note, can_review_examination,
}

-- Once a case is closed, no user, whatever the roles, assignment or lead, may manage it, add notes,
-- edit its evidence, record a hash, create or work on or review its examinations, or write, edit or
-- review its reports.
pub closed_refuses_changes :
    (user : Actor) (case : CaseRow) (item : ItemRow) (exam : ExamRow) (report : ReportRow)
    (assigned : Bool)
    → case.status ≡ closed
    → item.case_status ≡ closed
    → exam.case_status ≡ closed
    → report.case_status ≡ closed
    → (can_manage_case user case ≡ false)
      × (can_add_case_note user case assigned ≡ false)
      × (can_edit_evidence user item ≡ false)
      × (can_record_hash user item assigned ≡ false)
      × (can_create_examination user case assigned ≡ false)
      × (can_work_on_examination user exam ≡ false)
      × (can_review_examination user exam ≡ false)
      × (can_write_report user case assigned ≡ false)
      × (can_edit_report user report ≡ false)
      × (can_review_report user report ≡ false)
unfolding can_manage_case can_add_case_note can_edit_evidence can_record_hash can_create_examination
    can_work_on_examination can_review_examination can_write_report can_edit_report
    can_review_report
closed_refuses_changes user case item exam report assigned c i e r =
    (rw c, rw c, rw i, rw i, rw c, ground arith, ground arith, rw c, ground arith, ground arith)

abbrev pub IsAuditorOnly : Actor → Type 0
IsAuditorOnly user = user.roles ≡ auditor ∷ []

-- A user whose only role is Read-Only Auditor sees every case and all activity, and may create no
-- case, register, edit or attach no evidence, touch no hash or custody record and create nothing on
-- a case, assigned to it or not.
pub auditor_reads_only :
    (user : Actor) (case : CaseRow) (item : ItemRow) (assignments : List (ℕ × ℕ)) (case_id : ℕ)
    (assigned : Bool)
    → IsAuditorOnly user
    → (visible (scope_of user) assignments case_id ≡ true)
      × ((scope_of user).sees_all_activity ≡ true)
      × (can_create_case user ≡ false)
      × (can_register_evidence user ≡ false)
      × (can_verify_hash user assigned ≡ false)
      × (can_record_hash user item assigned ≡ false)
      × (can_correct_records user ≡ false)
      × (can_create_examination user case assigned ≡ false)
      × (can_write_report user case assigned ≡ false)
      × (can_add_case_note user case assigned ≡ false)
unfolding visible scope_of holds role_eq can_create_case can_register_evidence can_verify_hash
    can_record_hash can_correct_records can_create_examination can_write_report can_add_case_note
auditor_reads_only user case item assignments case_id assigned h = (
  rw h refl,
  rw h refl,
  rw h refl,
  rw h refl,
  rw h refl,
  rw h (ground arith),
  rw h refl,
  rw h (ground arith),
  rw h (ground arith),
  rw h (ground arith),
)

-- A report is reviewed exactly by an administrator who is not its author, while it is Under Review
-- and its case is open.
pub can_review_report_iff :
    (user : Actor) (report : ReportRow)
    → (can_review_report user report ≡ true) ↔ (
        (report.status ≡ report_review)
        × (is_closed report.case_status ≡ false)
        × (holds administrator user.roles ≡ true)
        × (user.user_id ≢ report.author_id))
unfolding can_review_report
can_review_report_iff user report = (λ h. reviewed report.status refl h, λ h. ground arith)
  where
    reviewed :
        (st : ReportStatus)
        → report.status ≡ st
        → can_review_report user report ≡ true
        → (report.status ≡ report_review)
          × (is_closed report.case_status ≡ false)
          × (holds administrator user.roles ≡ true)
          × (user.user_id ≢ report.author_id)
    reviewed draft e h = ground arith
    reviewed report_review e h = ground arith
    reviewed approved e h = ground arith

-- Nobody both works on an examination and reviews it: the two permissions never hold of one user
-- and one row; nor do editing and reviewing a report; and the examiner never reviews.
pub review_is_independent :
    (user : Actor) (exam : ExamRow) (report : ReportRow)
    → ((can_work_on_examination user exam && can_review_examination user exam) ≡ false)
      × ((can_edit_report user report && can_review_report user report) ≡ false)
      × (can_review_examination user exam ≡ true → user.user_id ≢ exam.examiner_id)
unfolding can_work_on_examination can_review_examination can_edit_report can_review_report
review_is_independent user exam report = (ground arith, ground arith, λ h. ground arith)

-- A case is visible exactly to those who hold a lab-wide role (Administrator, Read-Only Auditor or
-- Evidence Custodian) or are assigned to it.
pub visible_iff :
    (user : Actor) (assignments : List (ℕ × ℕ)) (case_id : ℕ)
    → visible (scope_of user) assignments case_id ≡ (
        holds administrator user.roles
        || holds auditor user.roles
        || holds custodian user.roles
        || exists (λ a. a.0 == case_id && a.1 == user.user_id) assignments)
unfolding visible scope_of
visible_iff user assignments case_id = ground arith

-- Whoever may change a case, by managing it as its lead or as an administrator, by noting on it, by
-- registering its evidence or by working in it as an assigned investigator, also sees it, if the
-- lead and the assigned are among the case's investigators.
pub changes_are_visible :
    (user : Actor) (case : CaseRow) (assignments : List (ℕ × ℕ)) (case_id : ℕ) (assigned : Bool)
    → (holds_id case.lead_user_id user.user_id ≡ true → assigned ≡ true)
    → assigned ≡ exists (λ a. a.0 == case_id && a.1 == user.user_id) assignments
    → (can_manage_case user case
        || can_add_case_note user case assigned
        || can_create_examination user case assigned
        || can_write_report user case assigned)
      ≡ true
    → visible (scope_of user) assignments case_id ≡ true
unfolding can_manage_case can_add_case_note can_create_examination can_write_report
changes_are_visible user case assignments case_id assigned lead at h =
    ground (arith, visible_iff user assignments case_id)
