-- ===== src/Cases/Closure.antt =====
-- Closing and deleting a case: what they ask for, and that a closed case is read-only.
use forge_x.Shared.{
  ◌==◌, Option-cases, length, exists, all, update_where, delete_where, ℕ, ◌≤◌, ◌≡◌, refl, inl, inr,
  Bool, true, false, ◌&&◌, ◌||◌, Option, some, [], ◌∷◌, ◌++◌, arith,
}
use forge_x.Shared.Text.{Text, strip, upper, text_eq_iff, or_empty, lit, val}
use forge_x.Shared.Outcome.{ok, is_ok}
use forge_x.Access.{administrator, CaseStatus, closed, is_closed, Actor, holds, can_manage_case}
use forge_x.Store.{success, CaseRecord, Store, Request, is_out}
use forge_x.Store.Roles.{fn_has_role, fn_is_case_lead, case_by_id}
use forge_x.Store.Audit.{audit_row, record_audit}
use forge_x.Cases.{
  update_cases, case_audit, may_change_team, sp_assign_investigator, sp_remove_investigator,
  is_unfinished, set_closed, close_row, sp_close_case,
}
use forge_x.Cases.Services.{
  case_view, lock_case, CaseEdit, update_case, change_status, no_blockers, drop_case, delete_case,
}

-- A case that was closed: by an administrator or its lead, with a summary, when no examination of
-- it was unfinished and no item of it out of storage.
pub record Closed (day : ℕ → ℕ) (q : Request) (cid : ℕ) (summary : Text) (by : ℕ) (s s' : Store)
    : Type 0 where
  pub row : CaseRecord
  pub found : case_by_id s cid ≡ some row
  pub was_open : is_closed row.status ≡ false
  pub permitted : (fn_has_role s by administrator || fn_is_case_lead s by row.case_id) ≡ true
  pub summarised : all (λ ch. ch == 32) summary ≡ false
  pub finished :
      exists (λ x. x.case_id == row.case_id && is_unfinished x.status) s.examinations ≡ false
  pub returned :
      exists (λ e. e.case_id == row.case_id && is_out e.current_status) s.evidence ≡ false
  pub cases : s'.cases ≡ update_where (λ c. c.case_id == row.case_id) (set_closed q summary) s.cases
  pub evidence : s'.evidence ≡ s.evidence
  pub examinations : s'.examinations ≡ s.examinations

close_row-Closed :
    (day : ℕ → ℕ) (q : Request) (cid : ℕ) (summary : Text) (by : ℕ) (s s' : Store) (c : CaseRecord)
    → case_by_id s cid ≡ some c
    → close_row day q summary by s c ≡ ok s'
    → Closed day q cid summary by s s'
unfolding close_row update_cases record_audit
close_row-Closed day q cid summary by s s' c f h = record {
  row = c;
  found = f;
  was_open = ground arith;
  permitted = ground arith;
  summarised = ground arith;
  finished = ground arith;
  returned = ground arith;
  cases = ground arith;
  evidence = ground arith;
  examinations = ground arith;
}

-- A case is closed only with every examination finished and every item back, and only its row
-- changes among cases, evidence and examinations.
pub sp_close_case-Closed :
    (day : ℕ → ℕ) (q : Request) (cid : ℕ) (summary : Text) (by : ℕ) (s s' : Store)
    → sp_close_case day q cid summary by s ≡ ok s'
    → Closed day q cid summary by s s'
unfolding sp_close_case
sp_close_case-Closed day q cid summary by s s' h = elim (Option-cases (case_by_id s cid)) [
  | inl e ↦ absurd (ground arith)
  | inr c ↦ close_row-Closed day q cid summary by s s' c.0 c.1 (ground (arith, c.1))
]

-- A closed case is read-only: editing, changing its status or its investigators, closing it again
-- and deleting it all fail, whoever asks and with whatever arguments.
pub closed_is_read_only :
    (day : ℕ → ℕ) (q : Request) (cid : ℕ) (user : Actor) (p : CaseEdit) (status : CaseStatus)
    (uid : ℕ) (make_lead : Bool) (summary : Text) (reason : Option Text) (typed : Text) (s : Store)
    (c : CaseRecord)
    → case_by_id s cid ≡ some c
    → c.status ≡ closed
    → (is_ok (update_case day q cid user p s) ≡ false)
      × (is_ok (change_status day q cid user status s) ≡ false)
      × (is_ok (sp_assign_investigator q cid uid make_lead user.user_id s) ≡ false)
      × (is_ok (sp_remove_investigator q cid uid user.user_id s) ≡ false)
      × (is_ok (sp_close_case day q cid summary user.user_id s) ≡ false)
      × (is_ok (delete_case q cid user reason typed s) ≡ false)
unfolding update_case lock_case case_view can_manage_case change_status sp_assign_investigator
    may_change_team sp_remove_investigator sp_close_case close_row delete_case no_blockers
closed_is_read_only day q cid user p status uid make_lead summary reason typed s c f k = (
  rw (f, k) refl,
  ground (arith, f, k),
  rw (f, k) refl,
  rw (f, k) refl,
  rw (f, k) refl,
  ground (arith, f, k),
)

-- A case that was deleted: an administrator's typed reference matched, and it had no history.
pub record Deleted (q : Request) (cid : ℕ) (user : Actor) (reason : Option Text) (typed : Text)
    (s s' : Store) : Type 0 where
  pub row : CaseRecord
  pub found : case_by_id s cid ≡ some row
  pub permitted : holds administrator user.roles ≡ true
  pub confirmed : upper (strip typed) ≡ row.case_reference
  pub was_open : is_closed row.status ≡ false
  pub no_evidence : exists (λ e. e.case_id == row.case_id) s.evidence ≡ false
  pub no_examinations : exists (λ x. x.case_id == row.case_id) s.examinations ≡ false
  pub no_reports : exists (λ r. r.case_id == row.case_id) s.reports ≡ false
  pub no_notes : exists (λ n. n.case_id == row.case_id) s.notes ≡ false
  pub explained : 10 ≤ length (strip (or_empty reason))
  pub cases : s'.cases ≡ delete_where (λ c. c.case_id == cid) s.cases
  pub assignments : s'.assignments ≡ delete_where (λ a. a.case_id == cid) s.assignments
  pub audited :
      s'.audit
      ≡ s.audit
        ++ audit_row q (record {
          user_id = some user.user_id;
          action = "case.delete";
          entity_type = "Case";
          entity_ref = some row.case_reference;
          outcome = success;
          details = some (
              lit "Deleted empty case '"
              ∷ val row.title
              ∷ lit "'. Reason: "
              ∷ val (strip (or_empty reason))
              ∷ []);
        })
          ∷ []

-- A case is deleted only by an administrator who types its reference and gives a reason of ten
-- characters, when it is open and has no evidence, examination, report or note; its row and
-- assignments go and one audit row with its title and the reason is written.
pub delete_case-Deleted :
    (q : Request) (cid : ℕ) (user : Actor) (reason : Option Text) (typed : Text) (s s' : Store)
    (reference : Text)
    → delete_case q cid user reason typed s ≡ ok (reference, s')
    → Deleted q cid user reason typed s s'
unfolding delete_case lock_case drop_case record_audit no_blockers case_audit
delete_case-Deleted q cid user reason typed s s' reference h =
    elim (Option-cases (case_by_id s cid)) [
      | inl e ↦ absurd (ground (arith, e))
      | inr c ↦ record {
        row = c.0;
        found = c.1;
        permitted = ground (arith, c.1);
        confirmed = (text_eq_iff (upper (strip typed)) c.0.case_reference).0 (ground (arith, c.1));
        was_open = ground (arith, c.1);
        no_evidence = ground (arith, c.1);
        no_examinations = ground (arith, c.1);
        no_reports = ground (arith, c.1);
        no_notes = ground (arith, c.1);
        explained = ground (arith, c.1);
        cases = ground (arith, c.1);
        assignments = ground (arith, c.1);
        audited = ground (arith, c.1);
      }
    ]
