-- ===== src/Examinations.antt =====
-- The workflow of app/examinations/services.py, with the CHECK constraints of examinations in
-- database/schema.sql and the triggers trg_exam_finalised and trg_ee_same_case. Each function is
-- one transaction.
pub mod Services
pub mod Workflow
pub mod Changes
pub mod Steps
pub mod History
pub mod Review
pub mod Accepted
pub mod Tests
use forge_x.Shared.{
  leb, ◌==◌, if◌then◌else◌, holds_id, is_some, find, update_where, ℕ, String, Bool, true, false,
  not, ◌&&◌, ◌||◌, Option, none, some, List, [], ◌∷◌,
}
use forge_x.Shared.Text.{Text, opt_text_eq, or_null?, Piece, lit}
use forge_x.Shared.Outcome.{Outcome, err, ok, ◌>>=◌, ◌>>◌, require}
use forge_x.Access.{
  ExamStatus, pending, in_progress, exam_review, completed, cancelled, is_exam_review, Actor,
  ExamRow, can_work_on_examination, can_review_examination,
}
use forge_x.Store.{CaseRecord, Examination, Store, Request}
use forge_x.Store.Roles.{case_by_id, lead_of}
use forge_x.Store.Audit.{AuditCall, record_audit, done}

pub data ExamError : Type 0 where
  exam_not_found cannot_change only_pending_starts not_started record_incomplete : ExamError
  not_a_reviewer say_what_to_revise give_a_reason choose_evidence : ExamError
  not_an_examiner case_not_open finalised only_by_review exam_refused link_refused : ExamError

abbrev pub is_final : ExamStatus → Bool
is_final completed = true
is_final cancelled = true
is_final _ = false

abbrev pub is_completed : ExamStatus → Bool
is_completed completed = true
is_completed _ = false

abbrev pub is_pending : ExamStatus → Bool
is_pending pending = true
is_pending _ = false

abbrev pub is_in_progress : ExamStatus → Bool
is_in_progress in_progress = true
is_in_progress _ = false

abbrev not_before : Option ℕ → Option ℕ → Bool
not_before (some t) (some u) = leb u t
not_before _ _ = false

abbrev state_ok : ExamStatus → Examination → Bool
state_ok pending x = not (is_some x.started_at) && not (is_some x.completed_at)
state_ok in_progress x = is_some x.started_at && not (is_some x.completed_at)
state_ok exam_review x =
    is_some x.started_at
    && not (is_some x.completed_at)
    && is_some x.submitted_at
    && is_some x.tools_methods
    && is_some x.findings
state_ok completed x =
    not_before x.completed_at x.started_at && is_some x.tools_methods && is_some x.findings
state_ok cancelled x = is_some x.cancel_reason

-- chk_exam_state
unfoldable pub chk_exam_state : Examination → Bool
chk_exam_state x = state_ok x.status x

-- chk_exam_independent
unfoldable pub chk_exam_independent : Examination → Bool
chk_exam_independent x = not (holds_id x.reviewed_by x.examiner_id)

-- trg_exam_finalised
unfoldable pub exam_finalised : Examination → Examination → Outcome ExamError Unit
exam_finalised old new = do
  require (not (is_final old.status)) finalised
  require (not (is_completed new.status) || (is_exam_review old.status && is_some new.reviewed_by))
      only_by_review

-- UPDATE examinations SET … WHERE examination_id = x.examination_id
unfoldable pub update_exam :
    Store → Examination → (Examination → Examination) → Outcome ExamError Store
unfolding exam_finalised
update_exam s x f = do
  exam_finalised x (f x)
  require (chk_exam_state (f x) && chk_exam_independent (f x)) exam_refused
  ok record s {
    examinations = update_where (λ y. y.examination_id == x.examination_id) f s.examinations;
  }

unfoldable pub exam_by_id : Store → ℕ → Option Examination
exam_by_id s xid = find (λ x. x.examination_id == xid) s.examinations

unfoldable pub exam_view : Store → Examination → CaseRecord → ExamRow
exam_view s x c = record {
  status = x.status;
  case_status = c.status;
  examiner_id = x.examiner_id;
  lead_user_id = lead_of s x.case_id;
}

abbrev join_case :
    Store → Examination → Option CaseRecord → Outcome ExamError (Examination × ExamRow)
join_case s x none = err exam_not_found
join_case s x (some c) = ok (x, exam_view s x c)

abbrev join_exam : Store → Option Examination → Outcome ExamError (Examination × ExamRow)
join_exam s none = err exam_not_found
join_exam s (some x) = join_case s x (case_by_id s x.case_id)

-- `_lock_row`
unfoldable pub lock_row : Store → ℕ → Outcome ExamError (Examination × ExamRow)
lock_row s xid = join_exam s (exam_by_id s xid)

-- `_lock`
unfoldable pub lock : Store → ℕ → Actor → Outcome ExamError (Examination × ExamRow)
lock s xid user = do
  exam ← lock_row s xid
  require (can_work_on_examination user exam.1) cannot_change
  ok exam

-- `_lock_for_review`
unfoldable pub lock_for_review : Store → ℕ → Actor → Outcome ExamError (Examination × ExamRow)
lock_for_review s xid user = do
  exam ← lock_row s xid
  require (can_review_examination user exam.1) not_a_reviewer
  ok exam

unfoldable pub exam_audit : Actor → String → Examination → List Piece → AuditCall
exam_audit user action x details = done user.user_id action "Examination" x.examination_code details

-- An update of the locked row and its audit record
unfoldable pub update_and_record :
    Request
    → Store
    → Actor
    → String
    → List Piece
    → (Examination → Examination)
    → Examination
    → Outcome ExamError Store
update_and_record q s user action details f x = do
  s1 ← update_exam s x f
  ok (record_audit q (exam_audit user action x details) s1)

pub record ExamRecord : Type 0 where
  pub tools_methods : Option Text
  pub observations : Option Text
  pub findings : Option Text
  pub limitations : Option Text
  pub conclusion : Option Text

unfoldable pub set_record : ExamRecord → Examination → Examination
set_record r x = record x {
  tools_methods = or_null? r.tools_methods;
  observations = or_null? r.observations;
  findings = or_null? r.findings;
  limitations = or_null? r.limitations;
  conclusion = or_null? r.conclusion;
}

abbrev if_changed : Option Text → Option Text → String → List String → List String
if_changed new old name rest = if opt_text_eq new old then rest else name ∷ rest

-- `changed`
unfoldable pub changed_fields : ExamRecord → Examination → List String
unfolding set_record
changed_fields r x =
    let y = set_record r x in
    if_changed y.tools_methods x.tools_methods "tools methods" (
      if_changed y.observations x.observations "observations" (
        if_changed y.findings x.findings "findings" (
          if_changed y.limitations x.limitations "limitations"
            (if_changed y.conclusion x.conclusion "conclusion" []))))

-- `", ".join(changed)`
unfoldable pub joined : List String → List Piece
joined [] = []
joined (w ∷ []) = lit w ∷ []
joined (w ∷ v ∷ ws) = lit w ∷ lit ", " ∷ joined (v ∷ ws)

abbrev pub marked : Outcome ExamError Store → Outcome ExamError (Bool × Store)
marked (ok s) = ok (true, s)
marked (err e) = err e

unfoldable pub record_changes :
    Request
    → Actor
    → ExamRecord
    → Store
    → Examination
    → List String
    → Outcome ExamError (Bool × Store)
unfolding joined
record_changes q user r s x [] = ok (false, s)
record_changes q user r s x (w ∷ ws) =
    marked (
      update_and_record q s user "exam.update" (lit "Updated: " ∷ joined (w ∷ ws)) (set_record r) x)

unfoldable pub update_record :
    Request → ℕ → Actor → ExamRecord → Store → Outcome ExamError (Bool × Store)
unfolding changed_fields record_changes
update_record q xid user r s = do
  exam ← lock s xid user
  record_changes q user r s exam.0 (changed_fields r exam.0)
