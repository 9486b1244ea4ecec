-- ===== src/Reports.antt =====
-- app/reports/services.py: reports, their immutable versions and their review, with sp_create_report
-- and sp_create_report_version of database/procedures.sql, the CHECK constraints of forensic_reports
-- and the triggers trg_rv_only_draft and trg_re_same_case.
pub mod Services
pub mod Workflow
pub mod Revisions
pub mod Versions
pub mod History
pub mod Approval
pub mod Tests
use forge_x.Shared.{
  leb, ◌==◌, if◌then◌else◌, holds_id, is_some, find, exists, select, update_where, ℕ, ◌+◌, max,
  String, Bool, true, false, not, ◌&&◌, ◌||◌, Option, none, List, [], ◌∷◌, ◌++◌,
}
use forge_x.Shared.Text.{Text, codes, text_eq, Piece, lit, num, val}
use forge_x.Shared.Outcome.{Outcome, ok, ◌>>=◌, ◌>>◌, require, or_raise}
use forge_x.Access.{administrator, ReportStatus, draft, approved, is_draft}
use forge_x.Store.{Report, Sections, ReportVersion, Store, Request}
use forge_x.Store.Roles.{fn_has_role, is_assigned, case_by_id}
use forge_x.Store.Audit.{AuditCall, record_audit, done}
use forge_x.Store.Sequence.{report_seq, next_reference, business_code}

pub data ReportError : Type 0 where
  report_not_found cannot_edit cannot_submit cannot_approve cannot_return : ReportError
  say_what_to_change report_case_not_found not_on_this_case return_it_first : ReportError
  only_author_revises report_refused only_while_draft version_refused : ReportError
  choose_examination citation_refused : ReportError

unfoldable pub report_by_id : Store → ℕ → Option Report
report_by_id s rid = find (λ r. r.report_id == rid) s.reports

-- WHERE report_id = rid
unfoldable pub versions_of : List ReportVersion → ℕ → List ReportVersion
versions_of vs rid = select (λ v. v.report_id == rid) vs

-- COALESCE(MAX(version_no), 0)
unfoldable pub max_version : List ReportVersion → ℕ
max_version [] = 0
max_version (v ∷ vs) = max v.version_no (max_version vs)

abbrev pub is_approved : ReportStatus → Bool
is_approved approved = true
is_approved _ = false

-- chk_rep_approval, chk_rep_submitted, chk_rep_independent
unfoldable pub report_valid : Report → Bool
report_valid r =
    (if is_approved r.status
      then is_some r.approved_by && is_some r.approved_at
      else not (is_some r.approved_by) && not (is_some r.approved_at))
    && (is_draft r.status || is_some r.submitted_at)
    && not (holds_id r.approved_by r.author_id)

-- UPDATE forensic_reports SET … WHERE report_id = r.report_id
unfoldable pub update_report : Store → Report → (Report → Report) → Outcome ReportError Store
unfolding report_valid
update_report s r f = do
  require (report_valid (f r)) report_refused
  ok (record s { reports = update_where (λ x. x.report_id == r.report_id) f s.reports })

-- INSERT INTO report_versions: trg_rv_only_draft, uq_rv_report_version and SMALLINT UNSIGNED
unfoldable pub insert_version : ReportVersion → Store → Outcome ReportError Store
insert_version v s = do
  report ← or_raise (report_by_id s v.report_id) only_while_draft
  require (is_draft report.status) only_while_draft
  require
      (not (exists (λ w. w.report_id == v.report_id && w.version_no == v.version_no) s.versions))
      version_refused
  require (leb v.version_no 65535) version_refused
  ok (record s { versions = s.versions ++ v ∷ [] })

unfoldable pub first_version : ℕ → ℕ → Sections → ReportVersion
first_version rid author sections = record {
  report_id = rid;
  version_no = 1;
  sections = sections;
  change_note = codes "First draft";
  created_by = author;
}

pub record NewReport : Type 0 where
  pub case_id : ℕ
  pub title : Text
  pub author_id : ℕ
  pub sections : Sections

unfoldable pub new_report : Request → Text → NewReport → Report
new_report q code p = record {
  report_id = q.new_id;
  report_code = code;
  case_id = p.case_id;
  title = p.title;
  author_id = p.author_id;
  status = draft;
  submitted_at = none;
  approved_by = none;
  approved_at = none;
}

-- INSERT INTO forensic_reports, with uq_report_code
unfoldable pub insert_report : Report → Store → Outcome ReportError Store
insert_report r s = do
  require (not (exists (λ x. text_eq x.report_code r.report_code) s.reports)) report_refused
  ok (record s { reports = s.reports ++ r ∷ [] })

unfoldable pub report_audit : ℕ → String → Text → List Piece → AuditCall
report_audit uid action code details = done uid action "Report" code details

-- sp_create_report; `year` is YEAR(CURDATE()).
unfoldable pub sp_create_report :
    Request → ℕ → NewReport → Store → Outcome ReportError ((ℕ × Text) × Store)
unfolding new_report first_version insert_report report_audit
sp_create_report q year p s = do
  let number = next_reference report_seq year s.counters
  require (is_some (case_by_id s p.case_id)) report_case_not_found
  require (fn_has_role s p.author_id administrator || is_assigned s p.author_id p.case_id)
      not_on_this_case
  let code = business_code "RP-" year 4 number.0
  s1 ← insert_report (new_report q code p) (record s { counters = number.1 })
  s2 ← insert_version (first_version q.new_id p.author_id p.sections) s1
  ok (
    (q.new_id, code),
    record_audit q (report_audit p.author_id "report.create" code (lit "Version 1 created" ∷ []))
        s2,
  )

pub record Revision : Type 0 where
  pub report_id : ℕ
  pub sections : Sections
  pub change_note : Text
  pub created_by : ℕ

unfoldable pub next_version : Revision → Store → ReportVersion
next_version p s = record {
  report_id = p.report_id;
  version_no = max_version (versions_of s.versions p.report_id) + 1;
  sections = p.sections;
  change_note = p.change_note;
  created_by = p.created_by;
}

-- `sp_create_report_version` after the report is locked
unfoldable pub revise : Request → Revision → Store → Report → Outcome ReportError (ℕ × Store)
unfolding next_version report_audit
revise q p s report = do
  require (is_draft report.status) return_it_first
  require (p.created_by == report.author_id || fn_has_role s p.created_by administrator)
      only_author_revises
  s1 ← insert_version (next_version p s) s
  ok (
    (next_version p s).version_no,
    record_audit q
        (report_audit p.created_by "report.revise" report.report_code
          (lit "Version " ∷ num (next_version p s).version_no ∷ lit ": " ∷ val p.change_note ∷ []))
        s1,
  )

unfoldable pub sp_create_report_version :
    Request → Revision → Store → Outcome ReportError (ℕ × Store)
unfolding revise
sp_create_report_version q p s = do
  report ← or_raise (report_by_id s p.report_id) report_not_found
  revise q p s report
