-- ===== src/Examinations/Tests.antt =====
-- Instances of the theorems about examinations: one that is under review and is approved.
use mathlib.Core.Path.{subst}
use forge_x.Shared.{
  ◌==◌, Bool-cases, take, find, update_where, ℕ, ◌≡◌, refl, inl, inr, true, none, some, [], ◌∷◌,
  arith,
}
use forge_x.Shared.Text.{codes, strip, or_null}
use forge_x.Shared.Outcome.{Outcome, err, ok}
use forge_x.Access.{
  investigator, role_eq, in_progress, exam_review, completed, cancelled, Actor, ExamRow, holds,
  can_work_on_examination, can_review_examination,
}
use forge_x.Store.{Examination, Store}
use forge_x.Store.Roles.{case_by_id, lead_of}
use forge_x.Store.Sample.{sample_case, sample, sample_request}
use forge_x.Examinations.{
  ExamError, chk_exam_state, chk_exam_independent, update_exam, exam_by_id, exam_view, lock_row,
  lock, lock_for_review, update_and_record,
}
use forge_x.Examinations.Services.{submit, set_completed, approve}
use forge_x.Examinations.Workflow.{exam_ok}
use forge_x.Examinations.Steps.{ExamStep, by_approve, exam_caller}
use forge_x.Examinations.History.{AllOk}
use forge_x.Examinations.Review.{
  ExamRun, nothing, next_call, finished_is_final, ReviewEnds, review_freezes_record,
}
use forge_x.Examinations.Accepted.{approve_accepted, submit_accepted}

abbrev under_review : Examination
under_review = record {
  examination_id = 4;
  examination_code = 69 ∷ [];
  case_id = 3;
  examination_type_id = 1;
  examiner_id = 8;
  status = exam_review;
  due_date = none;
  started_at = some 20;
  submitted_at = some 30;
  completed_at = none;
  reviewed_by = none;
  review_note = none;
  tools_methods = some (84 ∷ []);
  observations = none;
  findings = some (70 ∷ []);
  conclusion = none;
  limitations = none;
  cancel_reason = none;
}

with_exam : Store
with_exam = record sample { examinations = under_review ∷ [] }

abbrev lead : Actor
lead = record { user_id = 7; roles = investigator ∷ [] }

abbrev state_of : Outcome ExamError Store → Store
state_of (ok s) = s
state_of (err e) = sample

reviewed : Store
reviewed = state_of (approve sample_request 4 lead none with_exam)

approve_runs : approve sample_request 4 lead none with_exam ≡ ok reviewed
unfolding with_exam reviewed approve lock_for_review lock_row exam_by_id find case_by_id exam_view
    can_review_examination holds role_eq lead_of update_and_record update_exam set_completed
    chk_exam_state chk_exam_independent strip codes
approve_runs = refl

approval : ExamStep with_exam reviewed
approval = by_approve sample_request 4 lead none approve_runs

abbrev run : ExamRun with_exam reviewed
run = next_call nothing approval

with_exam-AllOk : AllOk with_exam
unfolding with_exam exam_by_id find exam_ok chk_exam_state chk_exam_independent
with_exam-AllOk = record {
  says = λ j x h. elim (Bool-cases (4 == j)) [
    | inl e ↦ subst (λ r. exam_ok r ≡ true) (same j x e h) refl
    | inr e ↦ absurd (ground arith)
  ];
}
  where
    same :
        (j : ℕ) (x : Examination)
        → 4 == j ≡ true
        → find (λ (y : Examination). y.examination_id == j) (under_review ∷ []) ≡ some x
        → under_review ≡ x
    same j x e h = ground arith

abbrev review_locked : Examination × ExamRow
review_locked = (under_review, exam_view with_exam under_review sample_case)

can_lock : lock_for_review with_exam 4 lead ≡ ok review_locked
unfolding with_exam lock_for_review lock_row exam_by_id find case_by_id exam_view
    can_review_examination holds role_eq lead_of
can_lock = refl

approve_accepted_example :
    (s2 : Store) × (approve sample_request 4 lead none with_exam ≡ ok s2)
    × (s2.examinations
        ≡ update_where
            (λ y. y.examination_id == 4)
            (λ y. record y {
              status = completed;
              completed_at = some sample_request.now;
              reviewed_by = some 7;
              review_note = or_null (take 500 (strip []));
            })
            with_exam.examinations)
approve_accepted_example =
    approve_accepted with_exam with_exam sample_request 4 lead none review_locked nothing
      with_exam-AllOk can_lock (λ t h. ground (arith, h))

abbrev going_exam : Examination
going_exam = record under_review { status = in_progress }

with_going : Store
with_going = record sample { examinations = going_exam ∷ [] }

with_going-AllOk : AllOk with_going
unfolding with_going exam_by_id find exam_ok chk_exam_state chk_exam_independent
with_going-AllOk = record {
  says = λ j x h. elim (Bool-cases (4 == j)) [
    | inl e ↦ let same : going_exam ≡ x = ground arith in subst (λ r. exam_ok r ≡ true) same refl
    | inr e ↦ absurd (ground arith)
  ];
}

abbrev work_locked : Examination × ExamRow
work_locked = (going_exam, exam_view with_going going_exam sample_case)

can_lock_work : lock with_going 4 lead ≡ ok work_locked
unfolding with_going lock lock_row exam_by_id find case_by_id exam_view can_work_on_examination
    holds role_eq lead_of
can_lock_work = refl

submit_accepted_example :
    (s2 : Store) × (submit sample_request 4 lead with_going ≡ ok s2)
    × (s2.examinations
        ≡ update_where
            (λ y. y.examination_id == 4)
            (λ y. record y {
              status = exam_review;
              submitted_at = some sample_request.now;
              review_note = none;
            })
            with_going.examinations)
submit_accepted_example =
    submit_accepted with_going with_going sample_request 4 lead work_locked nothing with_going-AllOk
      can_lock_work refl refl refl

review_freezes_record_example :
    (y : Examination) × (exam_by_id reviewed 4 ≡ some y)
    × ReviewEnds (exam_caller approval) under_review y
unfolding with_exam exam_by_id find
review_freezes_record_example =
    review_freezes_record with_exam reviewed 4 under_review approval refl refl

abbrev done_exam : Examination
done_exam = record under_review { status = cancelled; cancel_reason = some (82 ∷ []) }

with_done : Store
with_done = record sample {
  examinations = done_exam ∷ record under_review { examination_id = 6 } ∷ [];
}

approved_other : Store
approved_other = state_of (approve sample_request 6 lead none with_done)

other_runs : approve sample_request 6 lead none with_done ≡ ok approved_other
unfolding with_done approved_other approve lock_for_review lock_row exam_by_id find case_by_id
    exam_view can_review_examination holds role_eq lead_of update_and_record update_exam
    set_completed chk_exam_state chk_exam_independent strip codes
other_runs = refl

finished_is_final_example : exam_by_id approved_other 4 ≡ some done_exam
unfolding with_done exam_by_id find
finished_is_final_example =
    finished_is_final with_done approved_other 4 done_exam
      (next_call nothing (by_approve sample_request 6 lead none other_runs)) refl refl
