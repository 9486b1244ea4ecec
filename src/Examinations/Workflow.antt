-- ===== src/Examinations/Workflow.antt =====
-- What one change of an examination may do to its row: the steps of the workflow of
-- app/examinations/services.py and who may take them.
use forge_x.Shared.{
  ◌==◌, is_some, Option-cases, update_where, ℕ, String, ◌≡◌, ap, ◌∙◌, ◌≢◌, inl, inr, Bool, true,
  false, not, ◌&&◌, ◌||◌, Option, some, List, [], ◌∷◌, arith,
}
use forge_x.Shared.Text.{Text, Piece}
use forge_x.Shared.Outcome.{ok, bind-ok, ◌>>◌, require}
use forge_x.Access.{
  pending, in_progress, exam_review, completed, cancelled, is_workable, Actor, ExamRow,
  can_work_on_examination, can_review_examination,
}
use forge_x.Store.{Examination, Store, Request}
use forge_x.Store.Roles.{case_by_id}
use forge_x.Store.Audit.{record_audit}
use forge_x.Examinations.{
  cannot_change, not_a_reviewer, is_final, is_completed, chk_exam_state, chk_exam_independent,
  exam_finalised, update_exam, exam_by_id, exam_view, lock_row, lock, lock_for_review,
  update_and_record,
}

-- The forensic record of an examination.
abbrev pub record_of : Examination → List (Option Text)
record_of x = x.tools_methods ∷ x.observations ∷ x.findings ∷ x.limitations ∷ x.conclusion ∷ []

-- The steps of the workflow, from the row before to the row after.
pub data Effect (uid : ℕ) (x y : Examination) : Type 0 where
  edits : is_workable x.status ≡ true → y.status ≡ x.status → Effect uid x y
  starts : x.status ≡ pending → y.status ≡ in_progress → Effect uid x y
  submits :
      x.status ≡ in_progress → y.status ≡ exam_review → record_of y ≡ record_of x → Effect uid x y
  approves :
      x.status ≡ exam_review
      → y.status ≡ completed
      → y.reviewed_by ≡ some uid
      → uid ≢ x.examiner_id
      → record_of y ≡ record_of x
      → Effect uid x y
  returns :
      x.status ≡ exam_review
      → y.status ≡ in_progress
      → uid ≢ x.examiner_id
      → record_of y ≡ record_of x
      → Effect uid x y
  cancels : is_workable x.status ≡ true → y.status ≡ cancelled → Effect uid x y

-- CHECK chk_exam_state and chk_exam_independent, and a reviewer for a completed examination.
unfoldable pub exam_ok : Examination → Bool
exam_ok x =
    chk_exam_state x
    && chk_exam_independent x
    && (not (is_completed x.status) || is_some x.reviewed_by)

-- An update of one row that the constraints accept.
pub record Updated (s s' : Store) (x : Examination) (f : Examination → Examination) : Type 0 where
  pub valid : exam_ok (f x) ≡ true
  pub open_row : is_final x.status ≡ false
  pub table :
      s'.examinations ≡ update_where (λ y. y.examination_id == x.examination_id) f s.examinations

pub update_and_record-Updated :
    (q : Request) (s s' : Store) (user : Actor) (action : String) (details : List Piece)
    (f : Examination → Examination) (x : Examination)
    → update_and_record q s user action details f x ≡ ok s'
    → Updated s s' x f
unfolding update_and_record update_exam record_audit exam_ok exam_finalised
update_and_record-Updated q s s' user action details f x h = record {
  valid = ground arith;
  open_row = ground arith;
  table = ground arith;
}

pub record Locked (s : Store) (xid : ℕ) (r : Examination × ExamRow) : Type 0 where
  pub found : exam_by_id s xid ≡ some r.0
  pub status : r.1.status ≡ r.0.status
  pub examiner : r.1.examiner_id ≡ r.0.examiner_id

lock_row-Locked :
    (s : Store) (xid : ℕ) (r : Examination × ExamRow) → lock_row s xid ≡ ok r → Locked s xid r
unfolding lock_row exam_view
lock_row-Locked s xid r h = elim (Option-cases (exam_by_id s xid)) [
  | inl e ↦ absurd (ground arith)
  | inr x ↦ elim (Option-cases (case_by_id s x.0.case_id)) [
    | inl e ↦ absurd (ground (arith, x.1))
    | inr c ↦ record {
      found = ground (arith, x.1, c.1);
      status = ground (arith, x.1, c.1);
      examiner = ground (arith, x.1, c.1);
    }
  ]
]

pub lock-Locked :
    (s : Store) (xid : ℕ) (user : Actor) (r : Examination × ExamRow)
    → lock s xid user ≡ ok r
    → Locked s xid r × (is_workable r.0.status ≡ true)
unfolding lock can_work_on_examination
lock-Locked s xid user r h =
    let b =
      bind-ok (lock_row s xid)
        (λ e. require (can_work_on_examination user e.1) cannot_change >> ok e) h in
    let same : b.0 ≡ r = ground (arith, b.2) in
    let l = lock_row-Locked s xid r (b.1 ∙ ap ok same) in (l, ground (arith, b.2, l.status))

pub lock_for_review-Locked :
    (s : Store) (xid : ℕ) (user : Actor) (r : Examination × ExamRow)
    → lock_for_review s xid user ≡ ok r
    → Locked s xid r × (r.0.status ≡ exam_review) × (user.user_id ≢ r.0.examiner_id)
unfolding lock_for_review can_review_examination
lock_for_review-Locked s xid user r h =
    let b =
      bind-ok (lock_row s xid)
        (λ e. require (can_review_examination user e.1) not_a_reviewer >> ok e) h in
    let same : b.0 ≡ r = ground (arith, b.2) in
    let l = lock_row-Locked s xid r (b.1 ∙ ap ok same) in
    (l, ground (arith, b.2, l.status), ground (arith, b.2, l.examiner))
