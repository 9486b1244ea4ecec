-- ===== src/Reports/History.antt =====
-- Any sequence of calls on reports: versions stay numbered without gaps, and an approved report and
-- its versions never change.
use mathlib.Core.Path.{subst}
use forge_x.Shared.{leb, length, ℕ, ◌+◌, ◌≡◌, sym, ap, ◌∙◌, inl, inr, Option, none, List}
use forge_x.Shared.Text.{Text}
use forge_x.Shared.Outcome.{ok, require-then}
use forge_x.Access.{Actor, ReportRow, can_edit_report}
use forge_x.Store.{Sections, Store, Request}
use forge_x.Reports.{cannot_edit, choose_examination, report_by_id, NewReport}
use forge_x.Reports.Services.{
  create_report, save_version, link_examinations, submit_report, approve_report, return_to_draft,
}
use forge_x.Reports.Workflow.{
  ReportChanged, submit_report-ReportChanged, approve_report-ReportChanged,
  return_to_draft-ReportChanged,
}
use forge_x.Reports.Revisions.{
  Revised, ReportCreated, save_version-Revised, OnlyCites, link_and_record-OnlyCites,
  create_report-cases,
}
use forge_x.Reports.Versions.{numbers, count_of, GapFree, GapFree-max, append-GapFree}

-- One call
pub data ReportStep (s s' : Store) : Type 0 where
  by_create :
      (q : Request) (year uid : ℕ) (p : NewReport) (xids : List ℕ)
      → report_by_id s q.new_id ≡ none
      → count_of s.versions q.new_id ≡ 0
      → (create_report q year uid p xids s).1 ≡ s'
      → ReportStep s s'
  by_save :
      (q : Request) (shown : ReportRow) (user : Actor) (rid : ℕ) (sections : Sections) (note : Text)
      (n : ℕ)
      → save_version q shown user rid sections note s ≡ ok (n, s')
      → ReportStep s s'
  by_cite :
      (q : Request) (shown : ReportRow) (user : Actor) (rid : ℕ) (code : Text) (xids : List ℕ)
      → link_examinations q shown user rid code xids s ≡ ok s'
      → ReportStep s s'
  by_submit :
      (q : Request) (rid : ℕ) (user : Actor) → submit_report q rid user s ≡ ok s' → ReportStep s s'
  by_approve :
      (q : Request) (rid : ℕ) (user : Actor) → approve_report q rid user s ≡ ok s' → ReportStep s s'
  by_return :
      (q : Request) (rid : ℕ) (user : Actor) (note : Option Text)
      → return_to_draft q rid user note s ≡ ok s'
      → ReportStep s s'

-- The id of the user who makes the call
unfoldable pub caller : {s s' : Store} → ReportStep s s' → ℕ
caller (by_create q year uid p xids absent numbers h) = uid
caller (by_save q shown user rid sections text n h) = user.user_id
caller (by_cite q shown user rid code xids h) = user.user_id
caller (by_submit q rid user h) = user.user_id
caller (by_approve q rid user h) = user.user_id
caller (by_return q rid user text h) = user.user_id

-- What a call did
pub data StepOutcome (uid : ℕ) (s s' : Store) : Type 0 where
  row_changed : (rid : ℕ) → ReportChanged uid rid s s' → StepOutcome uid s s'
  version_added : Revised s s' → StepOutcome uid s s'
  report_added :
      (id : ℕ)
      → report_by_id s id ≡ none
      → count_of s.versions id ≡ 0
      → (s1 : Store) → ReportCreated id s s1
      → OnlyCites s1 s'
      → StepOutcome uid s s'
  tables_kept : OnlyCites s s' → StepOutcome uid s s'

link_examinations-OnlyCites :
    (q : Request) (shown : ReportRow) (user : Actor) (rid : ℕ) (code : Text) (xids : List ℕ)
    (s s' : Store)
    → link_examinations q shown user rid code xids s ≡ ok s'
    → OnlyCites s s'
unfolding link_examinations
link_examinations-OnlyCites q shown user rid code xids s s' h =
    let t = require-then (can_edit_report user shown) cannot_edit _ h in
    let u = require-then (leb 1 (length xids)) choose_examination _ t.1 in
    link_and_record-OnlyCites q user.user_id rid code xids s s' u.1

pub ReportStep-StepOutcome : (s s' : Store) (t : ReportStep s s') → StepOutcome (caller t) s s'
unfolding caller
ReportStep-StepOutcome s s' (by_create q year uid p xids a c h) =
    elim (create_report-cases q year uid p xids s) [
      | inl e ↦
          let same = sym h ∙ e in
          tables_kept
            (record { versions = ap (λ t. t.versions) same; reports = ap (λ t. t.reports) same })
      | inr r ↦ report_added q.new_id a c r.0 r.1 (subst (OnlyCites r.0) h r.2)
    ]
ReportStep-StepOutcome s s' (by_save q shown user rid sections note n h) =
    version_added (save_version-Revised q shown user rid sections note s s' n h)
ReportStep-StepOutcome s s' (by_cite q shown user rid code xids h) =
    tables_kept (link_examinations-OnlyCites q shown user rid code xids s s' h)
ReportStep-StepOutcome s s' (by_submit q rid user h) =
    row_changed rid (submit_report-ReportChanged q rid user s s' h)
ReportStep-StepOutcome s s' (by_approve q rid user h) =
    row_changed rid (approve_report-ReportChanged q rid user s s' h)
ReportStep-StepOutcome s s' (by_return q rid user note h) =
    row_changed rid (return_to_draft-ReportChanged q rid user s note s' h)

step-GapFree :
    (uid : ℕ) (s s' : Store) → StepOutcome uid s s' → GapFree s.versions → GapFree s'.versions
step-GapFree uid s s' (row_changed rid c) g = subst GapFree (sym c.versions) g
step-GapFree uid s s' (version_added r) g = subst GapFree (sym r.versions) (
    append-GapFree s.versions r.version
      (r.number ∙ ap (λ n. n + 1) (GapFree-max s.versions r.version.report_id g)) g)
step-GapFree uid s s' (report_added id a c s1 r k) g =
    subst GapFree (sym (k.versions ∙ r.versions)) (
      append-GapFree s.versions r.version
        (r.number ∙ ap (λ n. n + 1) (sym (ap (count_of s.versions) r.fresh_id ∙ c))) g)
step-GapFree uid s s' (tables_kept k) g = subst GapFree (sym k.versions) g

-- Any number of calls
pub data ReportRun (s : Store) : Store → Type 0 where
  no_call : ReportRun s s
  next_call : {s1 s2 : Store} → ReportRun s s1 → ReportStep s1 s2 → ReportRun s s2

-- Whatever calls are made, the versions of every report are numbered 1, 2, 3, … without gaps and in
-- the order in which they were saved.
pub versions-GapFree : (s s' : Store) → ReportRun s s' → GapFree s.versions → GapFree s'.versions
versions-GapFree s _ no_call g = g
versions-GapFree s s' (next_call {s1} r t) g =
    step-GapFree (caller t) s1 s' (ReportStep-StepOutcome s1 s' t) (versions-GapFree s s1 r g)
