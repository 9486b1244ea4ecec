-- ===== src/Cases.antt =====
-- The procedures of database/procedures.sql that app/cases/services.py calls: registration, the
-- investigators of a case and its closure, with the constraints of cases and case_investigators and
-- the trigger trg_cases_closed_readonly.
pub mod Services
pub mod Closure
pub mod Tests
use forge_x.Shared.{
  leb, ◌==◌, if◌then◌else◌, is_some, find, exists, all, update_where, delete_where, ℕ, String, Bool,
  true, false, not, ◌&&◌, ◌||◌, Option, none, some, List, [], ◌∷◌, ◌++◌,
}
use forge_x.Shared.Text.{Text, text_eq, Piece, lit, num}
use forge_x.Shared.Outcome.{Outcome, ok, ◌>>=◌, ◌>>◌, require, or_raise}
use forge_x.Access.{
  administrator, investigator, open_case, closed, ExamStatus, completed, cancelled, is_closed,
}
use forge_x.Store.{
  Priority, low, medium, high, critical, CaseRecord, Assignment, Store, Request, is_out,
}
use forge_x.Store.Roles.{fn_has_role, fn_is_case_lead, case_by_id}
use forge_x.Store.Audit.{AuditCall, record_audit, done}
use forge_x.Store.Sequence.{case_seq, next_reference, business_code}

pub data CaseError : Type 0 where
  may_not_register lead_not_investigator choose_case_type case_refused : CaseError
  case_not_found closed_team may_not_assign not_an_investigator already_assigned : CaseError
  already_lead not_assigned is_the_lead already_closed may_not_close summary_required : CaseError
  examinations_open evidence_out closed_read_only : CaseError
  may_not_edit changed_meanwhile choose_valid_type due_too_early may_not_change_status : CaseError
  same_status only_administrators reason_too_short type_reference has_history : CaseError
  note_length may_not_note note_refused : CaseError

-- chk_cases_closed, chk_cases_closed_after, chk_cases_due_after_created; `day` is DATE().
unfoldable pub case_valid : (day : ℕ → ℕ) → CaseRecord → Bool
case_valid day c =
    (if is_closed c.status
      then is_some c.closed_at && is_some c.closure_summary
      else not (is_some c.closed_at))
    && elim c.closed_at [ none ↦ true | some t ↦ leb c.created_at t ]
    && elim c.due_date [ none ↦ true | some d ↦ leb (day c.created_at) d ]

-- UPDATE cases SET … WHERE case_id = c.case_id, with trg_cases_closed_readonly
unfoldable pub update_cases :
    (day : ℕ → ℕ) → Store → CaseRecord → (CaseRecord → CaseRecord) → Outcome CaseError Store
unfolding case_valid
update_cases day s c f = do
  require (not (is_closed c.status)) closed_read_only
  require (case_valid day (f c)) case_refused
  ok (record s { cases = update_where (λ x. x.case_id == c.case_id) f s.cases })

abbrev pub is_member : ℕ → ℕ → Assignment → Bool
is_member cid uid a = a.case_id == cid && a.user_id == uid

abbrev pub is_lead_of : ℕ → Assignment → Bool
is_lead_of cid a = a.case_id == cid && a.is_lead

-- INSERT INTO case_investigators, with uq_ci_case_user and uq_ci_one_lead
unfoldable pub insert_assignment : Assignment → Store → Outcome CaseError Store
insert_assignment a s = do
  require (not (exists (is_member a.case_id a.user_id) s.assignments)) case_refused
  require (not (a.is_lead && exists (is_lead_of a.case_id) s.assignments)) case_refused
  ok (record s { assignments = s.assignments ++ a ∷ [] })

pub record NewCase : Type 0 where
  pub title : Text
  pub description : Text
  pub case_type_id : ℕ
  pub priority : Priority
  pub lead_user_id : ℕ
  pub created_by : ℕ

abbrev pub priority_name : Priority → String
priority_name low = "Low"
priority_name medium = "Medium"
priority_name high = "High"
priority_name critical = "Critical"

unfoldable pub new_case : Request → Text → NewCase → CaseRecord
new_case q reference p = record {
  case_id = q.new_id;
  case_reference = reference;
  title = p.title;
  description = p.description;
  case_type_id = p.case_type_id;
  priority = p.priority;
  status = open_case;
  due_date = none;
  created_by = p.created_by;
  created_at = q.now;
  updated_at = q.now;
  closed_at = none;
  closure_summary = none;
}

unfoldable pub case_audit : ℕ → String → Text → List Piece → AuditCall
case_audit uid action reference details = done uid action "Case" reference details

-- sp_register_case; `year` is YEAR(CURDATE()).
unfoldable pub sp_register_case :
    Request → ℕ → NewCase → Store → Outcome CaseError ((ℕ × Text) × Store)
unfolding new_case insert_assignment case_audit
sp_register_case q year p s = do
  require (fn_has_role s p.created_by administrator || fn_has_role s p.created_by investigator)
      may_not_register
  require (fn_has_role s p.lead_user_id investigator) lead_not_investigator
  require (exists (λ t. t.case_type_id == p.case_type_id && t.is_active) s.case_types)
      choose_case_type
  let number = next_reference case_seq year s.counters
  let reference = business_code "FX-" year 4 number.0
  require (not (exists (λ c. text_eq c.case_reference reference) s.cases)) case_refused
  let lead : Assignment = record {
    case_id = q.new_id;
    user_id = p.lead_user_id;
    is_lead = true;
    assigned_by = p.created_by;
  }
  s1 ←
      insert_assignment lead
        (record s { counters = number.1; cases = s.cases ++ new_case q reference p ∷ [] })
  ok (
    (q.new_id, reference),
    record_audit q
        (case_audit p.created_by "case.create" reference (
          lit "Priority "
          ∷ lit (priority_name p.priority)
          ∷ lit ", lead user "
          ∷ num p.lead_user_id
          ∷ []))
        s1,
  )

-- The guards that sp_assign_investigator and sp_remove_investigator share
unfoldable pub may_change_team : Store → ℕ → CaseRecord → Outcome CaseError Unit
may_change_team s by c = do
  require (not (is_closed c.status)) closed_team
  require (fn_has_role s by administrator || fn_is_case_lead s by c.case_id) may_not_assign

abbrev flag_of : Option Assignment → Option Bool
flag_of none = none
flag_of (some a) = some a.is_lead

-- `is_lead` of the row, NULL if there is none
unfoldable pub lead_flag : Store → ℕ → ℕ → Option Bool
lead_flag s cid uid = flag_of (find (is_member cid uid) s.assignments)

abbrev is_true : Option Bool → Bool
is_true (some true) = true
is_true _ = false

abbrev pub demote : Assignment → Assignment
demote a = record a { is_lead = false }

abbrev pub promote : Assignment → Assignment
promote a = record a { is_lead = true }

-- `UPDATE case_investigators SET is_lead = FALSE` if a new lead is made
unfoldable pub clear_lead : Bool → ℕ → Store → Store
clear_lead make_lead cid s =
    if make_lead
    then record s { assignments = update_where (is_lead_of cid) demote s.assignments }
    else s

unfoldable pub seat : ℕ → ℕ → Bool → ℕ → Option Bool → Store → Outcome CaseError Store
seat cid uid make_lead by none s =
    insert_assignment
      (record { case_id = cid; user_id = uid; is_lead = make_lead; assigned_by = by }) s
seat cid uid make_lead by (some b) s =
    ok (record s { assignments = update_where (is_member cid uid) promote s.assignments })

-- sp_assign_investigator
unfoldable pub sp_assign_investigator : Request → ℕ → ℕ → Bool → ℕ → Store → Outcome CaseError Store
unfolding may_change_team lead_flag clear_lead seat
sp_assign_investigator q cid uid make_lead by s = do
  c ← or_raise (case_by_id s cid) case_not_found
  may_change_team s by c
  require (fn_has_role s uid investigator) not_an_investigator
  require (not (is_some (lead_flag s cid uid) && not make_lead)) already_assigned
  require (not (is_true (lead_flag s cid uid) && make_lead)) already_lead
  s1 ← seat cid uid make_lead by (lead_flag s cid uid) (clear_lead make_lead cid s)
  ok (
      record_audit q
        (case_audit by (if make_lead then "case.set_lead" else "case.assign_investigator")
          c.case_reference (lit "Investigator user " ∷ num uid ∷ []))
        s1)

-- sp_remove_investigator
unfoldable pub sp_remove_investigator : Request → ℕ → ℕ → ℕ → Store → Outcome CaseError Store
unfolding may_change_team lead_flag
sp_remove_investigator q cid uid by s = do
  c ← or_raise (case_by_id s cid) case_not_found
  may_change_team s by c
  require (is_some (lead_flag s cid uid)) not_assigned
  require (not (is_true (lead_flag s cid uid))) is_the_lead
  ok (
      record_audit q
        (case_audit by "case.remove_investigator" c.case_reference
          (lit "Investigator user " ∷ num uid ∷ []))
        (record s { assignments = delete_where (is_member cid uid) s.assignments }))

-- `status IN ('Pending','In Progress','Under Review')`
abbrev pub is_unfinished : ExamStatus → Bool
is_unfinished completed = false
is_unfinished cancelled = false
is_unfinished _ = true

unfoldable pub set_closed : Request → Text → CaseRecord → CaseRecord
set_closed q summary c = record c {
  status = closed;
  closed_at = some q.now;
  closure_summary = some summary;
  updated_at = q.now;
}

-- sp_close_case after the row is read; TRIM removes spaces only.
unfoldable pub close_row :
    (day : ℕ → ℕ) → Request → Text → ℕ → Store → CaseRecord → Outcome CaseError Store
close_row day q summary by s c = do
  require (not (is_closed c.status)) already_closed
  require (fn_has_role s by administrator || fn_is_case_lead s by c.case_id) may_not_close
  require (not (all (λ ch. ch == 32) summary)) summary_required
  require (not (exists (λ x. x.case_id == c.case_id && is_unfinished x.status) s.examinations))
      examinations_open
  require (not (exists (λ e. e.case_id == c.case_id && is_out e.current_status) s.evidence))
      evidence_out
  s1 ← update_cases day s c (set_closed q summary)
  ok (record_audit q (case_audit by "case.close" c.case_reference (lit "Case closed" ∷ [])) s1)

-- sp_close_case
unfoldable pub sp_close_case :
    (day : ℕ → ℕ) → Request → ℕ → Text → ℕ → Store → Outcome CaseError Store
unfolding close_row
sp_close_case day q cid summary by s = do
  c ← or_raise (case_by_id s cid) case_not_found
  close_row day q summary by s c
