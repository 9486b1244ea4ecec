-- ===== src/Examinations/Steps.antt =====
-- The functions of app/examinations/services.py as the steps of one relation, and what a step may do
-- to the table of examinations.
use forge_x.Shared.{
  leb, length, ℕ, ◌≡◌, refl, ◌∙◌, ◌⊎◌, inl, inr, true, Option, none, List, [], ◌∷◌, ◌++◌, arith,
}
use forge_x.Shared.Text.{Text}
use forge_x.Shared.Outcome.{ok, bind-ok, require-then}
use forge_x.Access.{pending, Actor}
use forge_x.Store.{Examination, Store, Request}
use forge_x.Store.Roles.{case_by_id}
use forge_x.Store.Audit.{record_audit}
use forge_x.Examinations.{
  choose_evidence, not_an_examiner, case_not_open, exam_by_id, lock, ExamRecord, update_record,
}
use forge_x.Examinations.Services.{
  start, submit, approve, return_for_revision, cancel, insert_link, insert_links, link_evidence,
  NewExam, is_case_examiner, is_open, new_exam, insert_exam, create_examination,
}
use forge_x.Examinations.Workflow.{exam_ok}
use forge_x.Examinations.Changes.{
  Changed, start-Changed, submit-Changed, approve-Changed, return_for_revision-Changed,
  cancel-Changed, update_record-Changed,
}

-- One accepted call
pub data ExamStep (s s' : Store) : Type 0 where
  by_start : (q : Request) (xid : ℕ) (user : Actor) → start q xid user s ≡ ok s' → ExamStep s s'
  by_submit : (q : Request) (xid : ℕ) (user : Actor) → submit q xid user s ≡ ok s' → ExamStep s s'
  by_approve :
      (q : Request) (xid : ℕ) (user : Actor) (note : Option Text)
      → approve q xid user note s ≡ ok s'
      → ExamStep s s'
  by_return :
      (q : Request) (xid : ℕ) (user : Actor) (note : Option Text)
      → return_for_revision q xid user note s ≡ ok s'
      → ExamStep s s'
  by_cancel :
      (q : Request) (xid : ℕ) (user : Actor) (reason : Option Text)
      → cancel q xid user reason s ≡ ok s'
      → ExamStep s s'
  by_edit :
      (q : Request) (xid : ℕ) (user : Actor) (p : ExamRecord)
      → update_record q xid user p s ≡ ok (true, s')
      → ExamStep s s'
  by_link :
      (q : Request) (xid : ℕ) (user : Actor) (eids : List ℕ)
      → link_evidence q xid user eids s ≡ ok s'
      → ExamStep s s'
  by_create :
      (q : Request) (year : ℕ) (p : NewExam) (code : Text)
      → exam_by_id s q.new_id ≡ none
      → create_examination q year p s ≡ ok (code, s')
      → ExamStep s s'

-- The id of the user who makes the call
unfoldable pub exam_caller : {s s' : Store} → ExamStep s s' → ℕ
exam_caller (by_start q xid user h) = user.user_id
exam_caller (by_submit q xid user h) = user.user_id
exam_caller (by_approve q xid user text h) = user.user_id
exam_caller (by_return q xid user text h) = user.user_id
exam_caller (by_cancel q xid user reason h) = user.user_id
exam_caller (by_edit q xid user p h) = user.user_id
exam_caller (by_link q xid user eids h) = user.user_id
exam_caller (by_create q year p code a h) = p.signed_in.user_id

-- A row was added: a Pending one that the constraints accept.
pub record Created (s s' : Store) : Type 0 where
  pub row : Examination
  pub absent : exam_by_id s row.examination_id ≡ none
  pub valid : exam_ok row ≡ true
  pub status : row.status ≡ pending
  pub table : s'.examinations ≡ s.examinations ++ row ∷ []

insert_links-examinations :
    (xid : ℕ) (eids : List ℕ) (s s' : Store)
    → insert_links xid eids s ≡ ok s'
    → s'.examinations ≡ s.examinations
unfolding insert_links insert_link
insert_links-examinations xid [] s s' h = ground arith
insert_links-examinations xid (eid ∷ eids) s s' h =
    let b = bind-ok (insert_link xid eid s) (λ s1. insert_links xid eids s1) h in
    let rest = insert_links-examinations xid eids b.0 s' b.2 in
    let here : (b.0).examinations ≡ s.examinations = ground (arith, b.1) in rest ∙ here

link_evidence-examinations :
    (q : Request) (xid : ℕ) (user : Actor) (eids : List ℕ) (s s' : Store)
    → link_evidence q xid user eids s ≡ ok s'
    → s'.examinations ≡ s.examinations
unfolding link_evidence record_audit
link_evidence-examinations q xid user eids s s' h =
    let t = require-then (leb 1 (length eids)) choose_evidence _ h in
    let b = bind-ok (lock s xid user) _ t.1 in
    let c = bind-ok (insert_links xid eids s) _ b.2 in
    let same : s'.examinations ≡ (c.0).examinations = ground (arith, c.2) in
    same ∙ insert_links-examinations xid eids s c.0 c.1

insert_exam-Created :
    (x : Examination) (s s' : Store)
    → exam_by_id s x.examination_id ≡ none
    → x.status ≡ pending
    → insert_exam x s ≡ ok s'
    → Created s s'
unfolding insert_exam exam_ok
insert_exam-Created x s s' a p h = record {
  row = x;
  absent = a;
  valid = ground arith;
  status = p;
  table = ground arith;
}

create_examination-Created :
    (q : Request) (year : ℕ) (p : NewExam) (code : Text) (s s' : Store)
    → exam_by_id s q.new_id ≡ none
    → create_examination q year p s ≡ ok (code, s')
    → Created s s'
unfolding create_examination record_audit exam_by_id new_exam
create_examination-Created q year p code s s' a h =
    let t = require-then (is_case_examiner s p.case_id p.examiner_id) not_an_examiner _ h in
    let u = require-then (is_open (case_by_id s p.case_id)) case_not_open _ t.1 in
    let b = bind-ok (insert_exam _ _) _ u.1 in
    let c = bind-ok (insert_links q.new_id p.evidence_ids b.0) _ b.2 in
    let i = insert_exam-Created _ _ b.0 a refl b.1 in
    let same : s'.examinations ≡ (c.0).examinations = ground (arith, c.2) in
    record {
      row = i.row;
      absent = i.absent;
      valid = i.valid;
      status = i.status;
      table = same ∙ insert_links-examinations q.new_id p.evidence_ids b.0 c.0 c.1 ∙ i.table;
    }

-- A call changes one row, leaves the table alone or adds a row.
pub ExamStep-cases :
    (s s' : Store) (t : ExamStep s s')
    → ((xid : ℕ) × Changed (exam_caller t) xid s s')
      ⊎ ((s'.examinations ≡ s.examinations) ⊎ Created s s')
unfolding exam_caller
ExamStep-cases s s' (by_start q xid user h) = inl (xid, start-Changed q xid user s s' h)
ExamStep-cases s s' (by_submit q xid user h) = inl (xid, submit-Changed q xid user s s' h)
ExamStep-cases s s' (by_approve q xid user note h) =
    inl (xid, approve-Changed q xid user s note s' h)
ExamStep-cases s s' (by_return q xid user note h) =
    inl (xid, return_for_revision-Changed q xid user s note s' h)
ExamStep-cases s s' (by_cancel q xid user reason h) =
    inl (xid, cancel-Changed q xid user s reason s' h)
ExamStep-cases s s' (by_edit q xid user p h) = inl (xid, update_record-Changed q xid user s p s' h)
ExamStep-cases s s' (by_link q xid user eids h) =
    inr (inl (link_evidence-examinations q xid user eids s s' h))
ExamStep-cases s s' (by_create q year p code a h) =
    inr (inr (create_examination-Created q year p code s s' a h))
