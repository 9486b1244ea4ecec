-- ===== src/Examinations/Review.antt =====
-- Sequences of calls on examinations: the constraints hold throughout, a finished examination is
-- final and one under review is frozen.
use mathlib.Core.Path.{ap}
use forge_x.Shared.{ℕ, ◌≡◌, ap, ◌∙◌, ◌≢◌, ◌⊎◌, inl, inr, true, some, arith}
use forge_x.Access.{
  ExamStatus, pending, in_progress, exam_review, completed, cancelled, is_workable,
}
use forge_x.Store.{Examination, Store}
use forge_x.Examinations.{is_final, exam_by_id}
use forge_x.Examinations.Workflow.{
  record_of, Effect, edits, starts, submits, approves, returns, cancels,
}
use forge_x.Examinations.Steps.{ExamStep, exam_caller}
use forge_x.Examinations.History.{ExamStep-Effect, AllOk, ExamStep-AllOk}

-- Any number of calls
pub data ExamRun (s : Store) : Store → Type 0 where
  nothing : ExamRun s s
  next_call : {s1 s2 : Store} → ExamRun s s1 → ExamStep s1 s2 → ExamRun s s2

-- Every examination keeps the constraints of its status over any calls: among others a completed
-- one has tools, findings, a start not after its end, and a reviewer who is not its examiner.
pub ExamRun-AllOk : (s s' : Store) → ExamRun s s' → AllOk s → AllOk s'
ExamRun-AllOk s _ nothing v = v
ExamRun-AllOk s s' (next_call {s1} r t) v = ExamStep-AllOk s1 s' t (ExamRun-AllOk s s1 r v)

final-not_workable : (st : ExamStatus) → is_final st ≡ true → is_workable st ≡ true → ⊥
final-not_workable pending f w = ground arith
final-not_workable in_progress f w = ground arith
final-not_workable exam_review f w = ground arith
final-not_workable completed f w = ground arith
final-not_workable cancelled f w = ground arith

final_unchanged :
    (uid : ℕ) (x y : Examination) → is_final x.status ≡ true → (y ≡ x) ⊎ Effect uid x y → y ≡ x
final_unchanged uid x y f (inl e) = e
final_unchanged uid x y f (inr (edits w e)) = absurd (final-not_workable x.status f w)
final_unchanged uid x y f (inr (starts a b)) = absurd (ground (arith, a))
final_unchanged uid x y f (inr (submits a b c)) = absurd (ground (arith, a))
final_unchanged uid x y f (inr (approves a b c d e)) = absurd (ground (arith, a))
final_unchanged uid x y f (inr (returns a b c d)) = absurd (ground (arith, a))
final_unchanged uid x y f (inr (cancels w e)) = absurd (final-not_workable x.status f w)

-- A completed or cancelled examination is never changed again, whatever calls follow.
pub finished_is_final :
    (s s' : Store) (j : ℕ) (x : Examination)
    → ExamRun s s'
    → exam_by_id s j ≡ some x
    → is_final x.status ≡ true
    → exam_by_id s' j ≡ some x
finished_is_final s _ j x nothing h f = h
finished_is_final s s' j x (next_call {s1} r t) h f =
    let before = finished_is_final s s1 j x r h f in
    let e = ExamStep-Effect s1 s' j x t before in
    e.1 ∙ ap some (final_unchanged (exam_caller t) x e.0 f e.2)

-- What becomes of a row under review: its record stays, and it leaves the review only to Completed
-- or back to In Progress, when the caller, who is named as its reviewer if it is
-- completed, is not its examiner.
unfoldable pub ReviewEnds : ℕ → Examination → Examination → Type 0
ReviewEnds uid x y =
    (record_of y ≡ record_of x)
    × ((y ≡ x)
        ⊎ ((uid ≢ x.examiner_id)
            × ((y.status ≡ in_progress) ⊎ ((y.status ≡ completed) × (y.reviewed_by ≡ some uid)))))

review_ends :
    (uid : ℕ) (x y : Examination)
    → x.status ≡ exam_review
    → (y ≡ x) ⊎ Effect uid x y
    → ReviewEnds uid x y
unfolding ReviewEnds
review_ends uid x y h (inl e) = (ap record_of e, inl e)
review_ends uid x y h (inr (edits w e)) = absurd (ground (arith, h))
review_ends uid x y h (inr (starts a b)) = absurd (ground arith)
review_ends uid x y h (inr (submits a b c)) = absurd (ground arith)
review_ends uid x y h (inr (approves a b c d e)) = (e, inr (d, inr (b, c)))
review_ends uid x y h (inr (returns a b c d)) = (d, inr (c, inl b))
review_ends uid x y h (inr (cancels w e)) = absurd (ground (arith, h))

-- While an examination is Under Review its record is frozen: whatever the call, the tools,
-- observations, findings, limitations and conclusion stay, and it leaves the review only to
-- Completed or back to In Progress, when the caller, who is named as its reviewer if it is
-- completed, is not its examiner.
pub review_freezes_record :
    (s s' : Store) (j : ℕ) (x : Examination) (call : ExamStep s s')
    → exam_by_id s j ≡ some x
    → x.status ≡ exam_review
    → (y : Examination) × (exam_by_id s' j ≡ some y) × ReviewEnds (exam_caller call) x y
review_freezes_record s s' j x t h r =
    let e = ExamStep-Effect s s' j x t h in (e.0, e.1, review_ends (exam_caller t) x e.0 r e.2)
