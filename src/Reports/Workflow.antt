-- ===== src/Reports/Workflow.antt =====
-- What an accepted call of app/reports/services.py does to the reports and their versions.
use forge_x.Shared.{
  leb, ◌==◌, Option-cases, length, update_where, ℕ, String, ◌≡◌, refl, sym, ◌∙◌, ◌≢◌, inl, inr,
  true, Option, some, List, arith,
}
use forge_x.Shared.Text.{Text, strip, or_empty, Piece}
use forge_x.Shared.Outcome.{ok, bind-ok, require-then}
use forge_x.Access.{
  ReportStatus, draft, report_review, approved, is_draft, is_report_review, Actor, ReportRow,
  can_edit_report, can_review_report,
}
use forge_x.Store.{Report, Store, Request}
use forge_x.Store.Roles.{case_by_id}
use forge_x.Store.Audit.{record_audit}
use forge_x.Reports.{
  cannot_submit, cannot_approve, cannot_return, say_what_to_change, report_by_id, report_valid,
  update_report,
}
use forge_x.Reports.Services.{
  report_view, lock_report, change_report, set_report_submitted, submit_report, set_report_approved,
  approve_report, set_report_draft, return_to_draft,
}

-- The steps of the review, from the row before to the row after.
pub data ReportEffect (uid : ℕ) (r t : Report) : Type 0 where
  submits : r.status ≡ draft → t.status ≡ report_review → ReportEffect uid r t
  approves :
      r.status ≡ report_review
      → t.status ≡ approved
      → t.approved_by ≡ some uid
      → uid ≢ r.author_id
      → ReportEffect uid r t
  returns : r.status ≡ report_review → t.status ≡ draft → uid ≢ r.author_id → ReportEffect uid r t

-- One row was changed, by a step of the review that the constraints accept.
pub record ReportChanged (uid rid : ℕ) (s s' : Store) : Type 0 where
  pub row : Report
  pub change : Report → Report
  pub found : report_by_id s rid ≡ some row
  pub valid : report_valid (change row) ≡ true
  pub effect : ReportEffect uid row (change row)
  pub keeps_id : (r : Report) → (change r).report_id ≡ r.report_id
  pub table : s'.reports ≡ update_where (λ r. r.report_id == row.report_id) change s.reports
  pub versions : s'.versions ≡ s.versions

pub record ReportLocked (s : Store) (rid : ℕ) (l : Report × ReportRow) : Type 0 where
  pub found : report_by_id s rid ≡ some l.0
  pub status : l.1.status ≡ l.0.status
  pub author : l.1.author_id ≡ l.0.author_id

lock_report-ReportLocked :
    (s : Store) (rid : ℕ) (l : Report × ReportRow) → lock_report s rid ≡ ok l → ReportLocked s rid l
unfolding lock_report report_view
lock_report-ReportLocked s rid l h = elim (Option-cases (report_by_id s rid)) [
  | inl e ↦ absurd (ground arith)
  | inr r ↦ elim (Option-cases (case_by_id s r.0.case_id)) [
    | inl e ↦ absurd (ground (arith, r.1))
    | inr c ↦ record {
      found = ground (arith, r.1, c.1);
      status = ground (arith, r.1, c.1);
      author = ground (arith, r.1, c.1);
    }
  ]
]

is_draft-eq : (st : ReportStatus) → is_draft st ≡ true → st ≡ draft
is_draft-eq draft h = refl
is_draft-eq report_review h = absurd (ground arith)
is_draft-eq approved h = absurd (ground arith)

is_report_review-eq : (st : ReportStatus) → is_report_review st ≡ true → st ≡ report_review
is_report_review-eq draft h = absurd (ground arith)
is_report_review-eq report_review h = refl
is_report_review-eq approved h = absurd (ground arith)

editor : (user : Actor) (v : ReportRow) → can_edit_report user v ≡ true → v.status ≡ draft
unfolding can_edit_report
editor user v h = is_draft-eq v.status (ground arith)

reviewer :
    (user : Actor) (v : ReportRow)
    → can_review_report user v ≡ true
    → (v.status ≡ report_review) × (user.user_id ≢ v.author_id)
unfolding can_review_report
reviewer user v h = (is_report_review-eq v.status (ground arith), ground arith)

module _ (q : Request) (rid : ℕ) (user : Actor) (s : Store) where
  report_changed :
      (s' : Store) (r : Report) (action : String) (details : List Piece) (f : Report → Report)
      → report_by_id s rid ≡ some r
      → change_report q s user action details f r ≡ ok s'
      → ReportEffect user.user_id r (f r)
      → ((t : Report) → (f t).report_id ≡ t.report_id)
      → ReportChanged user.user_id rid s s'
  unfolding change_report update_report record_audit
  report_changed s' r action details f e h k i = record {
    row = r;
    change = f;
    found = e;
    valid = ground arith;
    effect = k;
    keeps_id = i;
    table = ground arith;
    versions = ground arith;
  }

  pub submit_report-ReportChanged :
      (s' : Store) → submit_report q rid user s ≡ ok s' → ReportChanged user.user_id rid s s'
  unfolding submit_report set_report_submitted
  submit_report-ReportChanged s' h =
      let b = bind-ok (lock_report s rid) _ h in
      let l = lock_report-ReportLocked s rid b.0 b.1 in
      let t = require-then (can_edit_report user b.0.1) cannot_submit _ b.2 in
      report_changed s' b.0.0 "report.submit" _ (set_report_submitted q) l.found t.1
        (submits (sym l.status ∙ editor user b.0.1 t.0) refl) (λ r. refl)

  pub approve_report-ReportChanged :
      (s' : Store) → approve_report q rid user s ≡ ok s' → ReportChanged user.user_id rid s s'
  unfolding approve_report set_report_approved
  approve_report-ReportChanged s' h =
      let b = bind-ok (lock_report s rid) _ h in
      let l = lock_report-ReportLocked s rid b.0 b.1 in
      let t = require-then (can_review_report user b.0.1) cannot_approve _ b.2 in
      let v = reviewer user b.0.1 t.0 in
      report_changed s' b.0.0 "report.approve" _ (set_report_approved q user) l.found t.1
        (approves (sym l.status ∙ v.0) refl refl (λ e. v.1 (e ∙ sym l.author))) (λ r. refl)

  pub return_to_draft-ReportChanged :
      (note : Option Text) (s' : Store)
      → return_to_draft q rid user note s ≡ ok s'
      → ReportChanged user.user_id rid s s'
  unfolding return_to_draft set_report_draft
  return_to_draft-ReportChanged note s' h =
      let n = require-then (leb 5 (length (strip (or_empty note)))) say_what_to_change _ h in
      let b = bind-ok (lock_report s rid) _ n.1 in
      let l = lock_report-ReportLocked s rid b.0 b.1 in
      let t = require-then (can_review_report user b.0.1) cannot_return _ b.2 in
      let v = reviewer user b.0.1 t.0 in
      report_changed s' b.0.0 "report.return" _ set_report_draft l.found t.1
        (returns (sym l.status ∙ v.0) refl (λ e. v.1 (e ∙ sym l.author))) (λ r. refl)
