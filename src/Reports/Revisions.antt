-- ===== src/Reports/Revisions.antt =====
-- What an accepted call of app/reports/services.py that adds a version or a citation writes.
use forge_x.Shared.{
  ◌==◌, is_some, Option-cases, ℕ, ◌+◌, ◌≡◌, refl, ◌∙◌, ◌⊎◌, inl, inr, true, ◌||◌, some, List, [],
  ◌∷◌, ◌++◌, arith,
}
use forge_x.Shared.Text.{Text}
use forge_x.Shared.Outcome.{Outcome, err, ok, bind-ok, require-then}
use forge_x.Access.{
  administrator, ReportStatus, draft, report_review, approved, is_draft, Actor, ReportRow,
  can_edit_report,
}
use forge_x.Store.{Report, Sections, ReportVersion, Store, Request}
use forge_x.Store.Roles.{fn_has_role, is_assigned, case_by_id}
use forge_x.Store.Audit.{record_audit}
use forge_x.Store.Sequence.{report_seq, next_reference, business_code}
use forge_x.Reports.{
  ReportError, cannot_edit, report_case_not_found, not_on_this_case, return_it_first,
  only_author_revises, report_by_id, versions_of, max_version, report_valid, insert_version,
  first_version, NewReport, new_report, insert_report, sp_create_report, Revision, next_version,
  revise, sp_create_report_version,
}
use forge_x.Reports.Services.{
  cite, link, link_and_record, cited, cite_new, create_report, save_version,
}

-- A version was added to a draft: the next number of its report.
pub record Revised (s s' : Store) : Type 0 where
  pub report : Report
  pub version : ReportVersion
  pub found : report_by_id s version.report_id ≡ some report
  pub is_a_draft : report.status ≡ draft
  pub number : version.version_no ≡ max_version (versions_of s.versions version.report_id) + 1
  pub versions : s'.versions ≡ s.versions ++ version ∷ []
  pub reports : s'.reports ≡ s.reports

-- A report was added, a draft, with its version 1.
pub record ReportCreated (id : ℕ) (s s' : Store) : Type 0 where
  pub row : Report
  pub version : ReportVersion
  pub is_a_draft : row.status ≡ draft
  pub valid : report_valid row ≡ true
  pub of_row : version.report_id ≡ row.report_id
  pub fresh_id : version.report_id ≡ id
  pub number : version.version_no ≡ 1
  pub versions : s'.versions ≡ s.versions ++ version ∷ []
  pub reports : s'.reports ≡ s.reports ++ row ∷ []

draft-eq : (st : ReportStatus) → is_draft st ≡ true → st ≡ draft
draft-eq draft h = refl
draft-eq report_review h = absurd (ground arith)
draft-eq approved h = absurd (ground arith)

insert_version-appends :
    (v : ReportVersion) (s s' : Store)
    → insert_version v s ≡ ok s'
    → s' ≡ record s { versions = s.versions ++ v ∷ [] }
unfolding insert_version
insert_version-appends v s s' h = elim (Option-cases (report_by_id s v.report_id)) [
  | inl e ↦ absurd (ground arith)
  | inr r ↦ ground (arith, r.1)
]

pub sp_create_report_version-Revised :
    (q : Request) (p : Revision) (s s' : Store) (n : ℕ)
    → sp_create_report_version q p s ≡ ok (n, s')
    → Revised s s'
unfolding sp_create_report_version revise next_version record_audit
sp_create_report_version-Revised q p s s' n h = elim (Option-cases (report_by_id s p.report_id)) [
  | inl e ↦ absurd (ground arith)
  | inr r ↦
      let h' = rw (r.1) at h in
      let t = require-then (is_draft r.0.status) return_it_first _ h' in
      let u =
        require-then (p.created_by == r.0.author_id || fn_has_role s p.created_by administrator)
          only_author_revises _ t.1 in
      let b = bind-ok (insert_version (next_version p s) s) _ u.1 in
      let a = insert_version-appends (next_version p s) s b.0 b.1 in
      record {
        report = r.0;
        version = next_version p s;
        found = r.1;
        is_a_draft = draft-eq r.0.status t.0;
        number = refl;
        versions = ground (arith, a, b.2);
        reports = ground (arith, a, b.2);
      }
]

pub save_version-Revised :
    (q : Request) (shown : ReportRow) (user : Actor) (rid : ℕ) (sections : Sections) (note : Text)
    (s s' : Store) (n : ℕ)
    → save_version q shown user rid sections note s ≡ ok (n, s')
    → Revised s s'
unfolding save_version
save_version-Revised q shown user rid sections note s s' n h =
    let t = require-then (can_edit_report user shown) cannot_edit _ h in
    sp_create_report_version-Revised q _ s s' n t.1

insert_report-appends :
    (r : Report) (s s' : Store)
    → insert_report r s ≡ ok s'
    → s' ≡ record s { reports = s.reports ++ r ∷ [] }
unfolding insert_report
insert_report-appends r s s' h = ground arith

pub sp_create_report-ReportCreated :
    (q : Request) (year : ℕ) (p : NewReport) (s : Store) (r : (ℕ × Text) × Store)
    → sp_create_report q year p s ≡ ok r
    → ReportCreated q.new_id s r.1
unfolding sp_create_report new_report first_version record_audit report_valid
sp_create_report-ReportCreated q year p s r h =
    let t = require-then (is_some (case_by_id s p.case_id)) report_case_not_found _ h in
    let u =
      require-then (fn_has_role s p.author_id administrator || is_assigned s p.author_id p.case_id)
        not_on_this_case _ t.1 in
    let number = next_reference report_seq year s.counters in
    let row = new_report q (business_code "RP-" year 4 number.0) p in
    let b = bind-ok (insert_report row (record s { counters = number.1 })) _ u.1 in
    let c = bind-ok (insert_version (first_version q.new_id p.author_id p.sections) b.0) _ b.2 in
    let a = insert_report-appends row (record s { counters = number.1 }) b.0 b.1 in
    let d = insert_version-appends (first_version q.new_id p.author_id p.sections) b.0 c.0 c.1 in
    record {
      row = row;
      version = first_version q.new_id p.author_id p.sections;
      is_a_draft = refl;
      valid = refl;
      of_row = refl;
      fresh_id = refl;
      number = refl;
      versions = ground (arith, a, d, c.2);
      reports = ground (arith, a, d, c.2);
    }

-- A citation leaves the reports and their versions alone.
pub record OnlyCites (s s' : Store) : Type 0 where
  pub versions : s'.versions ≡ s.versions
  pub reports : s'.reports ≡ s.reports

link-OnlyCites : (rid : ℕ) (xids : List ℕ) (s s' : Store) → link rid xids s ≡ ok s' → OnlyCites s s'
unfolding link cite
link-OnlyCites rid [] s s' h = record { versions = ground arith; reports = ground arith }
link-OnlyCites rid (xid ∷ xids) s s' h =
    let b = bind-ok (cite rid xid s) (λ s1. link rid xids s1) h in
    let c = link-OnlyCites rid xids b.0 s' b.2 in
    let v : (b.0).versions ≡ s.versions = ground (arith, b.1) in
    let r : (b.0).reports ≡ s.reports = ground (arith, b.1) in
    record { versions = c.versions ∙ v; reports = c.reports ∙ r }

pub link_and_record-OnlyCites :
    (q : Request) (uid rid : ℕ) (code : Text) (xids : List ℕ) (s s' : Store)
    → link_and_record q uid rid code xids s ≡ ok s'
    → OnlyCites s s'
unfolding link_and_record record_audit
link_and_record-OnlyCites q uid rid code xids s s' h =
    let b = bind-ok (link rid xids s) _ h in
    let c = link-OnlyCites rid xids s b.0 b.1 in
    let v : s'.versions ≡ (b.0).versions = ground (arith, b.2) in
    let r : s'.reports ≡ (b.0).reports = ground (arith, b.2) in
    record { versions = v ∙ c.versions; reports = r ∙ c.reports }

-- `create_report` changes nothing, or creates a report with its version 1 and may cite.
pub create_report-cases :
    (q : Request) (year uid : ℕ) (p : NewReport) (xids : List ℕ) (s : Store)
    → ((create_report q year uid p xids s).1 ≡ s)
      ⊎ ((s1 : Store) × ReportCreated q.new_id s s1
          × OnlyCites s1 (create_report q year uid p xids s).1)
unfolding create_report
create_report-cases q year uid p xids s = by_outcome (sp_create_report q year p s) xids refl
  where
    unchanged : (s1 : Store) → OnlyCites s1 s1
    unchanged s1 = record { versions = refl; reports = refl }

    after :
        (r : (ℕ × Text) × Store) (xid : ℕ) (ids : List ℕ) (m : Outcome ReportError Store)
        → link_and_record q uid r.0.0 r.0.1 (xid ∷ ids) r.1 ≡ m
        → OnlyCites r.1 (cited r.0.1 r.1 m).1
    after r xid ids (ok s2) e = link_and_record-OnlyCites q uid r.0.0 r.0.1 (xid ∷ ids) r.1 s2 e
    after r xid ids (err x) e = unchanged r.1

    by_outcome :
        (m : Outcome ReportError ((ℕ × Text) × Store)) (ids : List ℕ)
        → sp_create_report q year p s ≡ m
        → ((cite_new q uid ids s m).1 ≡ s)
          ⊎ ((s1 : Store) × ReportCreated q.new_id s s1 × OnlyCites s1 (cite_new q uid ids s m).1)
    by_outcome (err e) ids h = inl refl
    by_outcome (ok r) [] h = inr (r.1, sp_create_report-ReportCreated q year p s r h, unchanged r.1)
    by_outcome (ok r) (xid ∷ ids) h =
        inr (r.1, sp_create_report-ReportCreated q year p s r h, after r xid ids _ refl)
