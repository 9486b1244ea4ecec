-- ===== src/Reports/Tests.antt =====
-- Instances of the theorems about reports: one is submitted while another is approved.
use forge_x.Shared.{
  ◌==◌, Bool-cases, find, exists, select, ℕ, ◌≡◌, refl, ◌⊎◌, inl, inr, none, some, [], ◌∷◌, arith,
}
use forge_x.Shared.Outcome.{Outcome, err, ok}
use forge_x.Access.{
  investigator, role_eq, open_case, draft, approved, Actor, ReportRow, holds, can_edit_report,
}
use forge_x.Store.{Report, Sections, Store}
use forge_x.Store.Sample.{sample, sample_request}
use forge_x.Reports.{
  ReportError, report_by_id, versions_of, max_version, insert_version, first_version, next_version,
  revise, sp_create_report_version,
}
use forge_x.Reports.Services.{save_version}
use forge_x.Reports.Workflow.{ReportEffect}
use forge_x.Reports.Versions.{up_to, numbers, count_of, GapFree}
use forge_x.Reports.History.{
  ReportStep, by_save, caller, ReportRun, no_call, next_call, versions-GapFree,
}
use forge_x.Reports.Approval.{ReportStep-Effect, approved_is_final}

abbrev approved_report : Report
approved_report = record {
  report_id = 4;
  report_code = 82 ∷ [];
  case_id = 3;
  title = 84 ∷ [];
  author_id = 7;
  status = approved;
  submitted_at = some 20;
  approved_by = some 1;
  approved_at = some 30;
}

abbrev draft_report : Report
draft_report = record approved_report {
  report_id = 5;
  status = draft;
  submitted_at = none;
  approved_by = none;
  approved_at = none;
}

abbrev no_sections : Sections
no_sections = record {
  methodology = [];
  observations = [];
  findings = [];
  conclusions = [];
  limitations = [];
}

with_reports : Store
with_reports = record sample {
  reports = approved_report ∷ draft_report ∷ [];
  versions = first_version 4 7 no_sections ∷ first_version 5 7 no_sections ∷ [];
}

abbrev author : Actor
author = record { user_id = 7; roles = investigator ∷ [] }

abbrev state_of : Outcome ReportError (ℕ × Store) → Store
state_of (ok r) = r.1
state_of (err e) = sample

abbrev shown : ReportRow
shown = record { status = draft; case_status = open_case; author_id = 7 }

saved : Store
saved = state_of (save_version sample_request shown author 5 no_sections (78 ∷ []) with_reports)

save_runs :
    save_version sample_request shown author 5 no_sections (78 ∷ []) with_reports ≡ ok (2, saved)
unfolding saved with_reports save_version can_edit_report sp_create_report_version report_by_id find
    revise insert_version next_version max_version versions_of select exists first_version role_eq
    holds
save_runs = refl

saving : ReportStep with_reports saved
saving = by_save sample_request shown author 5 no_sections (78 ∷ []) 2 save_runs

abbrev run : ReportRun with_reports saved
run = next_call no_call saving

with_reports-GapFree : GapFree with_reports.versions
unfolding with_reports versions_of select numbers count_of up_to first_version
with_reports-GapFree = record {
  says = λ rid. elim (Bool-cases (4 == rid)) [
    | inl e ↦ elim (Bool-cases (5 == rid)) [
      | inl f ↦ absurd (ground arith)
      | inr f ↦ rw (e, f) refl
    ]
    | inr e ↦ elim (Bool-cases (5 == rid)) [ inl f ↦ rw (e, f) refl | inr f ↦ rw (e, f) refl ]
  ];
}

versions-GapFree_example : GapFree saved.versions
versions-GapFree_example = versions-GapFree with_reports saved run with_reports-GapFree

ReportStep-Effect_example :
    (t : Report) × (report_by_id saved 5 ≡ some t)
    × ((t ≡ draft_report) ⊎ ReportEffect (caller saving) draft_report t)
unfolding with_reports report_by_id find
ReportStep-Effect_example = ReportStep-Effect with_reports saved 5 draft_report saving refl

approved_is_final_example :
    (report_by_id saved 4 ≡ some approved_report)
    × (versions_of saved.versions 4 ≡ versions_of with_reports.versions 4)
unfolding with_reports report_by_id find
approved_is_final_example = approved_is_final with_reports saved 4 approved_report run refl refl
