-- ===== src/Access/Tests.antt =====
-- Instances of the theorems about the permission matrix.
use forge_x.Shared.{exists, ◌≡◌, refl, true, none, some, [], ◌∷◌, arith}
use forge_x.Access.{
  administrator, investigator, auditor, role_eq, open_case, closed, exam_review, report_review,
  Actor, CaseRow, ItemRow, ExamRow, ReportRow, holds, scope_of, visible, can_review_report,
}
use forge_x.Access.Matrix.{can_review_report_iff, visible_iff}

abbrev lead : Actor
lead = record { user_id = 7; roles = investigator ∷ [] }

abbrev inspector : Actor
inspector = record { user_id = 9; roles = auditor ∷ [] }

abbrev closed_row : CaseRow
closed_row = record { status = closed; lead_user_id = some 7 }

abbrev open_row : CaseRow
open_row = record { status = open_case; lead_user_id = some 7 }

abbrev item_row : ItemRow
item_row = record { case_status = closed; lead_user_id = some 7; current_hash_value = none }

abbrev exam_row : ExamRow
exam_row = record {
  status = exam_review;
  case_status = closed;
  examiner_id = 8;
  lead_user_id = some 7;
}

abbrev report_row : ReportRow
report_row = record { status = report_review; case_status = closed; author_id = 7 }

abbrev admin : Actor
admin = record { user_id = 1; roles = administrator ∷ [] }

abbrev other_report_row : ReportRow
other_report_row = record { status = report_review; case_status = open_case; author_id = 7 }

can_review_report_iff_example : can_review_report admin other_report_row ≡ true
unfolding holds role_eq
can_review_report_iff_example =
    (can_review_report_iff admin other_report_row).1 (refl, refl, refl, ground arith)

visible_iff_example : visible (scope_of lead) ((3, 7) ∷ []) 3 ≡ true
unfolding holds role_eq exists
visible_iff_example = visible_iff lead ((3, 7) ∷ []) 3
