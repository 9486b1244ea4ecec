-- ===== src/Examinations/Services.antt =====
-- The changes of status of app/examinations/services.py, its links of evidence and the creation of
-- an examination.
use forge_x.Shared.{
  leb, ◌==◌, is_some, length, take, exists, ℕ, Bool, true, false, not, ◌&&◌, Option, none, some,
  List, [], ◌∷◌, ◌++◌,
}
use forge_x.Shared.Text.{Text, strip, text_eq, or_empty, or_null, or_null?, Piece, lit, num, val}
use forge_x.Shared.Outcome.{Outcome, ok, ◌>>=◌, ◌>>◌, require}
use forge_x.Access.{
  investigator, pending, in_progress, exam_review, completed, cancelled, is_closed, Actor,
}
use forge_x.Store.{CaseRecord, Evidence, Examination, Store, Request}
use forge_x.Store.Roles.{is_active_user, has_role_row, is_assigned, case_by_id, evidence_by_id}
use forge_x.Store.Audit.{record_audit}
use forge_x.Store.Sequence.{examination_seq, next_reference, business_code}
use forge_x.Examinations.{
  ExamError, only_pending_starts, not_started, record_incomplete, say_what_to_revise, give_a_reason,
  choose_evidence, not_an_examiner, case_not_open, exam_refused, link_refused, is_pending,
  is_in_progress, chk_exam_state, chk_exam_independent, exam_by_id, lock, lock_for_review,
  exam_audit, update_and_record,
}

unfoldable pub set_started : Request → Examination → Examination
set_started q x = record x { status = in_progress; started_at = some q.now }

unfoldable pub start : Request → ℕ → Actor → Store → Outcome ExamError Store
start q xid user s = do
  exam ← lock s xid user
  require (is_pending exam.0.status) only_pending_starts
  update_and_record q s user "exam.start" [] (set_started q) exam.0

unfoldable pub set_submitted : Request → Examination → Examination
set_submitted q x = record x { status = exam_review; submitted_at = some q.now; review_note = none }

unfoldable pub submit : Request → ℕ → Actor → Store → Outcome ExamError Store
submit q xid user s = do
  exam ← lock s xid user
  require (is_in_progress exam.0.status) not_started
  require (is_some (or_null? exam.0.tools_methods) && is_some (or_null? exam.0.findings))
      record_incomplete
  update_and_record q s user "exam.submit" (lit "Sent for review" ∷ []) (set_submitted q) exam.0

unfoldable pub set_completed : Request → Actor → Option Text → Examination → Examination
set_completed q user note x = record x {
  status = completed;
  completed_at = some q.now;
  reviewed_by = some user.user_id;
  review_note = or_null (take 500 (strip (or_empty note)));
}

-- `f": {note.strip()[:400]}" if note and note.strip() else ""`
abbrev pub note_pieces : Text → List Piece
note_pieces [] = []
note_pieces (c ∷ t) = lit ": " ∷ val (take 400 (c ∷ t)) ∷ []

unfoldable pub approve : Request → ℕ → Actor → Option Text → Store → Outcome ExamError Store
approve q xid user note s = do
  exam ← lock_for_review s xid user
  update_and_record q s user "exam.approve"
      (lit "Approved and completed" ∷ note_pieces (strip (or_empty note)))
      (set_completed q user note) exam.0

unfoldable pub set_returned : Text → Examination → Examination
set_returned note x = record x {
  status = in_progress;
  submitted_at = none;
  review_note = some (take 500 (strip note));
}

unfoldable pub return_for_revision :
    Request → ℕ → Actor → Option Text → Store → Outcome ExamError Store
return_for_revision q xid user note s = do
  require (leb 5 (length (strip (or_empty note)))) say_what_to_revise
  exam ← lock_for_review s xid user
  update_and_record q s user "exam.return" (val (take 500 (strip (or_empty note))) ∷ [])
      (set_returned (or_empty note)) exam.0

unfoldable pub set_cancelled : Text → Examination → Examination
set_cancelled reason x = record x {
  status = cancelled;
  cancel_reason = some (take 500 (strip reason));
}

unfoldable pub cancel : Request → ℕ → Actor → Option Text → Store → Outcome ExamError Store
cancel q xid user reason s = do
  require (leb 5 (length (strip (or_empty reason)))) give_a_reason
  exam ← lock s xid user
  update_and_record q s user "exam.cancel" (val (take 500 (or_empty reason)) ∷ [])
      (set_cancelled (or_empty reason)) exam.0

abbrev case_of_item : Option Evidence → Option ℕ
case_of_item none = none
case_of_item (some e) = some e.case_id

abbrev pub case_of_exam : Option Examination → Option ℕ
case_of_exam none = none
case_of_exam (some x) = some x.case_id

-- `a <=> b`: equal, or both NULL
abbrev pub null_safe_eq : Option ℕ → Option ℕ → Bool
null_safe_eq none none = true
null_safe_eq (some a) (some b) = a == b
null_safe_eq _ _ = false

-- trg_ee_same_case and the foreign keys: the item is one of the examination's case.
unfoldable pub ee_same_case : Store → ℕ → ℕ → Bool
ee_same_case s xid eid =
    null_safe_eq (case_of_item (evidence_by_id s eid)) (case_of_exam (exam_by_id s xid))
    && is_some (evidence_by_id s eid)

-- INSERT INTO examination_evidence
unfoldable pub insert_link : ℕ → ℕ → Store → Outcome ExamError Store
unfolding ee_same_case
insert_link xid eid s = do
  require (ee_same_case s xid eid) link_refused
  require (not (exists (λ l. l.0 == xid && l.1 == eid) s.exam_evidence)) link_refused
  ok (record s { exam_evidence = s.exam_evidence ++ (xid, eid) ∷ [] })

-- `for evidence_id in evidence_ids`
unfoldable pub insert_links : ℕ → List ℕ → Store → Outcome ExamError Store
unfolding insert_link
insert_links xid [] s = ok s
insert_links xid (eid ∷ eids) s = insert_link xid eid s >>= λ s1. insert_links xid eids s1

unfoldable pub link_evidence : Request → ℕ → Actor → List ℕ → Store → Outcome ExamError Store
unfolding insert_links
link_evidence q xid user eids s = do
  require (leb 1 (length eids)) choose_evidence
  exam ← lock s xid user
  s1 ← insert_links xid eids s
  ok (
      record_audit q
        (exam_audit user "exam.link_evidence" exam.0
          (num (length eids) ∷ lit " item(s) linked" ∷ []))
        s1)

pub record NewExam : Type 0 where
  pub case_id : ℕ
  pub examination_type_id : ℕ
  pub examiner_id : ℕ
  pub due_date : Option ℕ
  pub evidence_ids : List ℕ
  pub signed_in : Actor

-- The ids that `case_examiners` returns
unfoldable pub is_case_examiner : Store → ℕ → ℕ → Bool
is_case_examiner s cid uid =
    is_assigned s uid cid && has_role_row s uid investigator && is_active_user s uid

abbrev pub is_open : Option CaseRecord → Bool
is_open none = false
is_open (some c) = not (is_closed c.status)

unfoldable pub new_exam : Request → Text → NewExam → Examination
new_exam q code p = record {
  examination_id = q.new_id;
  examination_code = code;
  case_id = p.case_id;
  examination_type_id = p.examination_type_id;
  examiner_id = p.examiner_id;
  status = pending;
  due_date = p.due_date;
  started_at = none;
  submitted_at = none;
  completed_at = none;
  reviewed_by = none;
  review_note = none;
  tools_methods = none;
  observations = none;
  findings = none;
  conclusion = none;
  limitations = none;
  cancel_reason = none;
}

-- INSERT INTO examinations, with uq_exam_code
unfoldable pub insert_exam : Examination → Store → Outcome ExamError Store
insert_exam x s = do
  require (not (exists (λ y. text_eq y.examination_code x.examination_code) s.examinations))
      exam_refused
  require (chk_exam_state x && chk_exam_independent x) exam_refused
  ok (record s { examinations = s.examinations ++ x ∷ [] })

-- `year` is YEAR(CURDATE()).
unfoldable pub create_examination : Request → ℕ → NewExam → Store → Outcome ExamError (Text × Store)
unfolding insert_exam new_exam insert_links
create_examination q year p s = do
  require (is_case_examiner s p.case_id p.examiner_id) not_an_examiner
  require (is_open (case_by_id s p.case_id)) case_not_open
  let number = next_reference examination_seq year s.counters
  let code = business_code "EX-" year 4 number.0
  s1 ← insert_exam (new_exam q code p) (record s { counters = number.1 })
  s2 ← insert_links q.new_id p.evidence_ids s1
  ok (
    code,
    record_audit q
        (exam_audit p.signed_in "exam.create" (new_exam q code p)
          (num (length p.evidence_ids) ∷ lit " evidence item(s) linked" ∷ []))
        s2,
  )
