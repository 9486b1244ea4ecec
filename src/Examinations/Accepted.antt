-- ===== src/Examinations/Accepted.antt =====
-- The CHECK constraints and the trigger refuse no approval and no submission that the functions of
-- app/examinations/services.py let through.
use forge_x.Shared.{
  ◌==◌, holds_id, is_some, take, update_where, ℕ, ◌≤◌, String, ◌≡◌, refl, ap, ◌≢◌, true, false, not,
  ◌&&◌, ◌||◌, Option, none, some, List, [], ◌∷◌, arith,
}
use forge_x.Shared.Text.{Text, strip, or_empty, or_null, or_null?, Piece, lit}
use forge_x.Shared.Outcome.{ok}
use forge_x.Access.{in_progress, exam_review, completed, is_exam_review, Actor, ExamRow}
use forge_x.Store.{Examination, Store, Request}
use forge_x.Store.Audit.{record_audit}
use forge_x.Examinations.{
  is_final, is_completed, is_in_progress, chk_exam_state, chk_exam_independent, exam_finalised,
  update_exam, lock, lock_for_review, exam_audit, update_and_record,
}
use forge_x.Examinations.Services.{set_submitted, submit, set_completed, note_pieces, approve}
use forge_x.Examinations.Workflow.{exam_ok, lock-Locked, lock_for_review-Locked}
use forge_x.Examinations.History.{AllOk}
use forge_x.Examinations.Review.{ExamRun, ExamRun-AllOk}

unmet : {A : Type 0} → (o : Option A) → is_some o ≡ true → (a : A) × (o ≡ some a)
unmet none h = absurd (ground arith)
unmet (some a) h = (a, refl)

shown_is_some : (o : Option Text) → is_some (or_null? o) ≡ true → is_some o ≡ true
shown_is_some none h = absurd (ground arith)
shown_is_some (some t) h = refl

review_facts :
    (x : Examination)
    → x.status ≡ exam_review
    → exam_ok x ≡ true
    → (is_some x.started_at ≡ true) × (is_some x.tools_methods ≡ true) × (is_some x.findings ≡ true)
unfolding exam_ok chk_exam_state
review_facts x st h =
    let k = rw st at h in (ground (arith, k), ground (arith, k), ground (arith, k))

progress_facts :
    (x : Examination)
    → x.status ≡ in_progress
    → exam_ok x ≡ true
    → (is_some x.started_at ≡ true)
      × (is_some x.completed_at ≡ false)
      × (holds_id x.reviewed_by x.examiner_id ≡ false)
unfolding exam_ok chk_exam_state chk_exam_independent
progress_facts x st h =
    let k = rw st at h in (ground (arith, k), ground (arith, k), ground (arith, k))

approved_valid :
    (q : Request) (user : Actor) (remark : Option Text) (x : Examination)
    → x.status ≡ exam_review
    → exam_ok x ≡ true
    → user.user_id ≢ x.examiner_id
    → ((t : ℕ) → x.started_at ≡ some t → t ≤ q.now)
    → (chk_exam_state (set_completed q user remark x)
        && chk_exam_independent (set_completed q user remark x))
      ≡ true
unfolding chk_exam_state chk_exam_independent set_completed
approved_valid q user remark x st v other clock =
    let f = review_facts x st v in
    let t = unmet x.started_at f.0 in
    let before = clock t.0 t.1 in
    let apart : (user.user_id == x.examiner_id) ≡ false = ground (arith, other) in
    ground (arith, t.1, before, f.1, f.2, apart)

submitted_valid :
    (q : Request) (x : Examination)
    → x.status ≡ in_progress
    → exam_ok x ≡ true
    → is_some x.tools_methods ≡ true
    → is_some x.findings ≡ true
    → (chk_exam_state (set_submitted q x) && chk_exam_independent (set_submitted q x)) ≡ true
unfolding chk_exam_state chk_exam_independent set_submitted
submitted_valid q x st v tools findings =
    let f = progress_facts x st v in ground (arith, f.0, f.1, f.2, tools, findings)

update_accepted :
    (q : Request) (s : Store) (user : Actor) (action : String) (details : List Piece)
    (f : Examination → Examination) (x : Examination)
    → is_final x.status ≡ false
    → (not (is_completed (f x).status) || (is_exam_review x.status && is_some (f x).reviewed_by))
      ≡ true
    → (chk_exam_state (f x) && chk_exam_independent (f x)) ≡ true
    → (s2 : Store) × (update_and_record q s user action details f x ≡ ok s2)
      × (s2.examinations
          ≡ update_where (λ y. y.examination_id == x.examination_id) f s.examinations)
unfolding update_and_record update_exam exam_finalised record_audit
update_accepted q s user action details f x running reviewed valid =
    let s1 : Store = record s {
      examinations = update_where (λ y. y.examination_id == x.examination_id) f s.examinations;
    } in
    (
      record_audit q (exam_audit user action x details) s1,
      ground (arith, running, reviewed, valid),
      refl,
    )

-- Where every examination satisfies its constraints, whatever calls have been made since, an
-- approval by a user whom the service lets review the examination is accepted, if the clock is not
-- before its start: the database never refuses it. The row is then Completed now, by that user.
pub approve_accepted :
    (s s' : Store) (q : Request) (xid : ℕ) (user : Actor) (remark : Option Text)
    (r : Examination × ExamRow)
    → ExamRun s s'
    → AllOk s
    → lock_for_review s' xid user ≡ ok r
    → ((t : ℕ) → r.0.started_at ≡ some t → t ≤ q.now)
    → (s2 : Store) × (approve q xid user remark s' ≡ ok s2)
      × (s2.examinations
          ≡ update_where
              (λ y. y.examination_id == r.0.examination_id)
              (λ y. record y {
                status = completed;
                completed_at = some q.now;
                reviewed_by = some user.user_id;
                review_note = or_null (take 500 (strip (or_empty remark)));
              })
              s'.examinations)
unfolding approve set_completed
approve_accepted s s' q xid user remark r run v locked clock =
    let l = lock_for_review-Locked s' xid user r locked in
    let sound = (ExamRun-AllOk s s' run v).says xid r.0 l.0.found in
    let valid = approved_valid q user remark r.0 l.1 sound l.2 clock in
    let running : is_final r.0.status ≡ false = ap is_final l.1 in
    let reviewed : (is_exam_review r.0.status && true) ≡ true =
      ground (arith, ap is_exam_review l.1) in
    let done =
      update_accepted q s' user "exam.approve"
        (lit "Approved and completed" ∷ note_pieces (strip (or_empty remark)))
        (set_completed q user remark) r.0 running reviewed valid in
    (done.0, rw locked (done.1), done.2)

-- Where every examination satisfies its constraints, whatever calls have been made since, a user
-- whom the service lets work on an examination in progress, with tools and findings that are not
-- empty, can submit it: the database never refuses it. The row is then Under Review, submitted now.
pub submit_accepted :
    (s s' : Store) (q : Request) (xid : ℕ) (user : Actor) (r : Examination × ExamRow)
    → ExamRun s s'
    → AllOk s
    → lock s' xid user ≡ ok r
    → r.0.status ≡ in_progress
    → is_some (or_null? r.0.tools_methods) ≡ true
    → is_some (or_null? r.0.findings) ≡ true
    → (s2 : Store) × (submit q xid user s' ≡ ok s2)
      × (s2.examinations
          ≡ update_where
              (λ y. y.examination_id == r.0.examination_id)
              (λ y. record y {
                status = exam_review;
                submitted_at = some q.now;
                review_note = none;
              })
              s'.examinations)
unfolding submit set_submitted
submit_accepted s s' q xid user r run v locked going tools findings =
    let l = lock-Locked s' xid user r locked in
    let sound = (ExamRun-AllOk s s' run v).says xid r.0 l.0.found in
    let valid =
      submitted_valid q r.0 going sound (shown_is_some r.0.tools_methods tools)
        (shown_is_some r.0.findings findings) in
    let running : is_final r.0.status ≡ false = ap is_final going in
    let done =
      update_accepted q s' user "exam.submit" (lit "Sent for review" ∷ []) (set_submitted q) r.0
        running refl valid in
    let started : is_in_progress r.0.status ≡ true = ap is_in_progress going in
    (done.0, rw (locked, started, tools, findings) (done.1), done.2)
