-- ===== src/Reports/Services.antt =====
-- The functions of app/reports/services.py that change a report.
use forge_x.Shared.{
  leb, ◌==◌, is_some, length, take, exists, ℕ, String, not, ◌&&◌, Option, none, some, List, [], ◌∷◌,
  ◌++◌,
}
use forge_x.Shared.Text.{Text, strip, or_empty, Piece, lit, num, val}
use forge_x.Shared.Outcome.{Outcome, err, ok, ◌>>=◌, ◌>>◌, require}
use forge_x.Access.{
  draft, report_review, approved, Actor, ReportRow, can_edit_report, can_review_report,
}
use forge_x.Store.{CaseRecord, Report, Sections, Store, Request}
use forge_x.Store.Roles.{case_by_id}
use forge_x.Store.Audit.{record_audit}
use forge_x.Examinations.{exam_by_id}
use forge_x.Examinations.Services.{case_of_exam, null_safe_eq}
use forge_x.Reports.{
  ReportError, report_not_found, cannot_edit, cannot_submit, cannot_approve, cannot_return,
  say_what_to_change, choose_examination, citation_refused, report_by_id, versions_of, max_version,
  update_report, NewReport, report_audit, sp_create_report, sp_create_report_version,
}

abbrev case_of_report : Option Report → Option ℕ
case_of_report none = none
case_of_report (some r) = some r.case_id

-- trg_re_same_case, the foreign keys and the primary key of report_examinations
unfoldable pub cite : ℕ → ℕ → Store → Outcome ReportError Store
cite rid xid s = do
  require
      (null_safe_eq (case_of_report (report_by_id s rid)) (case_of_exam (exam_by_id s xid))
        && is_some (exam_by_id s xid))
      citation_refused
  require (not (exists (λ l. l.0 == rid && l.1 == xid) s.report_exams)) citation_refused
  ok (record s { report_exams = s.report_exams ++ (rid, xid) ∷ [] })

-- `_link`
unfoldable pub link : ℕ → List ℕ → Store → Outcome ReportError Store
unfolding cite
link rid [] s = ok s
link rid (xid ∷ xids) s = cite rid xid s >>= λ s1. link rid xids s1

-- The citations and their audit record, one transaction
unfoldable pub link_and_record : Request → ℕ → ℕ → Text → List ℕ → Store → Outcome ReportError Store
unfolding link
link_and_record q uid rid code xids s = do
  s1 ← link rid xids s
  ok (
      record_audit q
        (report_audit uid "report.link_exam" code
          (num (length xids) ∷ lit " examination(s) cited" ∷ []))
        s1)

-- The second transaction of `create_report`: the state it leaves, and the code or its error.
abbrev pub cited : Text → Store → Outcome ReportError Store → Outcome ReportError Text × Store
cited code s (ok s') = (ok code, s')
cited code s (err e) = (err citation_refused, s)

abbrev pub cite_new :
    Request
    → ℕ
    → List ℕ
    → Store
    → Outcome ReportError ((ℕ × Text) × Store)
    → Outcome ReportError Text × Store
cite_new q uid xids s (err e) = (err e, s)
cite_new q uid [] s (ok r) = (ok r.0.1, r.1)
cite_new q uid (xid ∷ xids) s (ok r) =
    cited r.0.1 r.1 (link_and_record q uid r.0.0 r.0.1 (xid ∷ xids) r.1)

-- `create_report`: a report whose citations are refused stays; `uid` is the signed-in user.
unfoldable pub create_report :
    Request → ℕ → ℕ → NewReport → List ℕ → Store → Outcome ReportError Text × Store
create_report q year uid p xids s = cite_new q uid xids s (sp_create_report q year p s)

-- `save_version`: `shown` is the row that the page read before.
unfoldable pub save_version :
    Request → ReportRow → Actor → ℕ → Sections → Text → Store → Outcome ReportError (ℕ × Store)
save_version q shown user rid sections note s = do
  require (can_edit_report user shown) cannot_edit
  sp_create_report_version q
      (record {
        report_id = rid;
        sections = sections;
        change_note = note;
        created_by = user.user_id;
      })
      s

unfoldable pub link_examinations :
    Request → ReportRow → Actor → ℕ → Text → List ℕ → Store → Outcome ReportError Store
unfolding link_and_record
link_examinations q shown user rid code xids s = do
  require (can_edit_report user shown) cannot_edit
  require (leb 1 (length xids)) choose_examination
  link_and_record q user.user_id rid code xids s

unfoldable pub report_view : Report → CaseRecord → ReportRow
report_view r c = record { status = r.status; case_status = c.status; author_id = r.author_id }

abbrev join_case : Report → Option CaseRecord → Outcome ReportError (Report × ReportRow)
join_case r none = err report_not_found
join_case r (some c) = ok (r, report_view r c)

abbrev join_report : Store → Option Report → Outcome ReportError (Report × ReportRow)
join_report s none = err report_not_found
join_report s (some r) = join_case r (case_by_id s r.case_id)

-- `_lock`
unfoldable pub lock_report : Store → ℕ → Outcome ReportError (Report × ReportRow)
lock_report s rid = join_report s (report_by_id s rid)

-- An update of the locked row and its audit record
unfoldable pub change_report :
    Request
    → Store
    → Actor
    → String
    → List Piece
    → (Report → Report)
    → Report
    → Outcome ReportError Store
change_report q s user action details f r = do
  s1 ← update_report s r f
  ok (record_audit q (report_audit user.user_id action r.report_code details) s1)

unfoldable pub set_report_submitted : Request → Report → Report
set_report_submitted q r = record r { status = report_review; submitted_at = some q.now }

unfoldable pub submit_report : Request → ℕ → Actor → Store → Outcome ReportError Store
submit_report q rid user s = do
  report ← lock_report s rid
  require (can_edit_report user report.1) cannot_submit
  change_report q s user "report.submit" (lit "Sent for review" ∷ []) (set_report_submitted q)
      report.0

unfoldable pub set_report_approved : Request → Actor → Report → Report
set_report_approved q user r = record r {
  status = approved;
  approved_by = some user.user_id;
  approved_at = some q.now;
}

unfoldable pub approve_report : Request → ℕ → Actor → Store → Outcome ReportError Store
approve_report q rid user s = do
  report ← lock_report s rid
  require (can_review_report user report.1) cannot_approve
  change_report q s user "report.approve"
      (lit "Version " ∷ num (max_version (versions_of s.versions rid)) ∷ lit " approved" ∷ [])
      (set_report_approved q user) report.0

unfoldable pub set_report_draft : Report → Report
set_report_draft r = record r { status = draft }

unfoldable pub return_to_draft :
    Request → ℕ → Actor → Option Text → Store → Outcome ReportError Store
return_to_draft q rid user note s = do
  require (leb 5 (length (strip (or_empty note)))) say_what_to_change
  report ← lock_report s rid
  require (can_review_report user report.1) cannot_return
  change_report q s user "report.return" (val (take 500 (strip (or_empty note))) ∷ [])
      set_report_draft report.0
