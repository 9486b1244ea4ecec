-- ===== src/Examinations/Changes.antt =====
-- Each function of app/examinations/services.py that changes an examination takes one step of the
-- workflow on one row.
use forge_x.Shared.{
  leb, is_some, length, ℕ, String, ◌≡◌, refl, true, ◌&&◌, Option, some, List, [], ◌∷◌, arith,
}
use forge_x.Shared.Text.{Text, strip, or_empty, or_null?, Piece, lit}
use forge_x.Shared.Outcome.{Outcome, err, ok, bind-ok, require-then}
use forge_x.Access.{
  ExamStatus, pending, in_progress, exam_review, completed, cancelled, is_workable, Actor, ExamRow,
}
use forge_x.Store.{Examination, Store, Request}
use forge_x.Examinations.{
  ExamError, only_pending_starts, not_started, record_incomplete, say_what_to_revise, give_a_reason,
  is_pending, is_in_progress, exam_by_id, lock, lock_for_review, update_and_record, ExamRecord,
  set_record, changed_fields, marked, record_changes, update_record,
}
use forge_x.Examinations.Services.{
  set_started, start, set_submitted, submit, set_completed, approve, set_returned,
  return_for_revision, set_cancelled, cancel,
}
use forge_x.Examinations.Workflow.{
  Effect, edits, starts, submits, approves, returns, cancels, Updated, update_and_record-Updated,
  Locked, lock-Locked, lock_for_review-Locked,
}

-- One row was changed, by a step of the workflow that the constraints accept.
pub record Changed (uid xid : ℕ) (s s' : Store) : Type 0 where
  pub row : Examination
  pub change : Examination → Examination
  pub found : exam_by_id s xid ≡ some row
  pub updated : Updated s s' row change
  pub effect : Effect uid row (change row)
  pub keeps_id : (y : Examination) → (change y).examination_id ≡ y.examination_id

is_pending-eq : (st : ExamStatus) → is_pending st ≡ true → st ≡ pending
is_pending-eq pending h = refl
is_pending-eq in_progress h = absurd (ground arith)
is_pending-eq exam_review h = absurd (ground arith)
is_pending-eq completed h = absurd (ground arith)
is_pending-eq cancelled h = absurd (ground arith)

is_in_progress-eq : (st : ExamStatus) → is_in_progress st ≡ true → st ≡ in_progress
is_in_progress-eq in_progress h = refl
is_in_progress-eq pending h = absurd (ground arith)
is_in_progress-eq exam_review h = absurd (ground arith)
is_in_progress-eq completed h = absurd (ground arith)
is_in_progress-eq cancelled h = absurd (ground arith)

marked-ok : (m : Outcome ExamError Store) (s' : Store) → marked m ≡ ok (true, s') → m ≡ ok s'
marked-ok (ok s) s' h = ground arith
marked-ok (err e) s' h = absurd (ground arith)

module _ (q : Request) (xid : ℕ) (user : Actor) (s : Store) where
  -- The locked row after its update
  changed :
      (s' : Store) (r : Examination × ExamRow) (action : String) (details : List Piece)
      (f : Examination → Examination)
      → Locked s xid r
      → update_and_record q s user action details f r.0 ≡ ok s'
      → Effect user.user_id r.0 (f r.0)
      → ((y : Examination) → (f y).examination_id ≡ y.examination_id)
      → Changed user.user_id xid s s'
  changed s' r action details f l h e k = record {
    row = r.0;
    change = f;
    found = l.found;
    updated = update_and_record-Updated q s s' user action details f r.0 h;
    effect = e;
    keeps_id = k;
  }

  pub start-Changed : (s' : Store) → start q xid user s ≡ ok s' → Changed user.user_id xid s s'
  unfolding start set_started
  start-Changed s' h =
      let b = bind-ok (lock s xid user) _ h in
      let l = lock-Locked s xid user b.0 b.1 in
      let t = require-then (is_pending b.0.0.status) only_pending_starts _ b.2 in
      changed s' b.0 "exam.start" [] (set_started q) l.0 t.1
        (starts (is_pending-eq b.0.0.status t.0) refl) (λ y. refl)

  pub submit-Changed : (s' : Store) → submit q xid user s ≡ ok s' → Changed user.user_id xid s s'
  unfolding submit set_submitted
  submit-Changed s' h =
      let b = bind-ok (lock s xid user) _ h in
      let l = lock-Locked s xid user b.0 b.1 in
      let t = require-then (is_in_progress b.0.0.status) not_started _ b.2 in
      let u =
        require-then (is_some (or_null? b.0.0.tools_methods) && is_some (or_null? b.0.0.findings))
          record_incomplete _ t.1 in
      changed s' b.0 "exam.submit" (lit "Sent for review" ∷ []) (set_submitted q) l.0 u.1
        (submits (is_in_progress-eq b.0.0.status t.0) refl refl) (λ y. refl)

  pub approve-Changed :
      (note : Option Text) (s' : Store)
      → approve q xid user note s ≡ ok s'
      → Changed user.user_id xid s s'
  unfolding approve set_completed
  approve-Changed note s' h =
      let b = bind-ok (lock_for_review s xid user) _ h in
      let l = lock_for_review-Locked s xid user b.0 b.1 in
      changed s' b.0 "exam.approve" _ (set_completed q user note) l.0 b.2
        (approves l.1 refl refl l.2 refl) (λ y. refl)

  pub return_for_revision-Changed :
      (note : Option Text) (s' : Store)
      → return_for_revision q xid user note s ≡ ok s'
      → Changed user.user_id xid s s'
  unfolding return_for_revision set_returned
  return_for_revision-Changed note s' h =
      let t = require-then (leb 5 (length (strip (or_empty note)))) say_what_to_revise _ h in
      let b = bind-ok (lock_for_review s xid user) _ t.1 in
      let l = lock_for_review-Locked s xid user b.0 b.1 in
      changed s' b.0 "exam.return" _ (set_returned (or_empty note)) l.0 b.2
        (returns l.1 refl l.2 refl) (λ y. refl)

  pub cancel-Changed :
      (reason : Option Text) (s' : Store)
      → cancel q xid user reason s ≡ ok s'
      → Changed user.user_id xid s s'
  unfolding cancel set_cancelled
  cancel-Changed reason s' h =
      let t = require-then (leb 5 (length (strip (or_empty reason)))) give_a_reason _ h in
      let b = bind-ok (lock s xid user) _ t.1 in
      let l = lock-Locked s xid user b.0 b.1 in
      changed s' b.0 "exam.cancel" _ (set_cancelled (or_empty reason)) l.0 b.2 (cancels l.1 refl)
        (λ y. refl)

  -- An edit with no change writes nothing.
  record_changes-Changed :
      (p : ExamRecord) (r : Examination × ExamRow) (names : List String) (s' : Store)
      → Locked s xid r
      → is_workable r.0.status ≡ true
      → record_changes q user p s r.0 names ≡ ok (true, s')
      → Changed user.user_id xid s s'
  unfolding record_changes set_record
  record_changes-Changed p r [] s' l w h = absurd (ground arith)
  record_changes-Changed p r (n ∷ ns) s' l w h =
      changed s' r "exam.update" _ (set_record p) l (marked-ok _ s' h) (edits w refl) (λ y. refl)

  pub update_record-Changed :
      (p : ExamRecord) (s' : Store)
      → update_record q xid user p s ≡ ok (true, s')
      → Changed user.user_id xid s s'
  unfolding update_record
  update_record-Changed p s' h =
      let b = bind-ok (lock s xid user) _ h in
      let l = lock-Locked s xid user b.0 b.1 in
      record_changes-Changed p b.0 (changed_fields p b.0.0) s' l.0 l.1 b.2
