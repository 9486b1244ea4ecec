-- ===== src/Cases/Services.antt =====
-- The changes of app/cases/services.py that are not procedures: editing, status, deletion and notes.
-- A write that changes a row sets its updated_at, which `update_case` compares.
use forge_x.Shared.{
  ltb, leb, ◌==◌, if◌then◌else◌, length, find, exists, delete_where, ℕ, String, Bool, true, false,
  not, ◌&&◌, Option, none, some, List, [], ◌∷◌, ◌++◌,
}
use forge_x.Shared.Text.{Text, strip, upper, text_eq, or_empty, or_null, Piece, lit, num, val}
use forge_x.Shared.Outcome.{Outcome, err, ok, ◌>>=◌, ◌>>◌, require, or_raise}
use forge_x.Access.{
  administrator, CaseStatus, open_case, in_progress_case, on_hold, closed, is_closed, Actor,
  CaseRow, holds, can_manage_case, can_add_case_note,
}
use forge_x.Store.{
  Priority, CaseRecord, CaseType, CaseNote, Store, Request, case_status_eq, priority_eq,
}
use forge_x.Store.Roles.{is_assigned, case_by_id, lead_of}
use forge_x.Store.Audit.{AuditCall, record_audit}
use forge_x.Cases.{
  CaseError, case_refused, case_not_found, may_not_edit, changed_meanwhile, choose_valid_type,
  due_too_early, may_not_change_status, same_status, only_administrators, reason_too_short,
  type_reference, has_history, note_length, may_not_note, note_refused, update_cases, NewCase,
  priority_name, case_audit, sp_register_case,
}

-- The columns that can_manage_case reads, of the row that `_lock_case` returns
unfoldable pub case_view : Store → CaseRecord → CaseRow
case_view s c = record { status = c.status; lead_user_id = lead_of s c.case_id }

-- `_lock_case`
unfoldable pub lock_case : Store → ℕ → Outcome CaseError CaseRecord
lock_case s cid = or_raise (case_by_id s cid) case_not_found

pub record CaseEdit : Type 0 where
  pub title : Text
  pub description : Text
  pub case_type_id : ℕ
  pub priority : Priority
  pub due_date : Option ℕ
  pub expected_version : ℕ

abbrev opt_id_eq : Option ℕ → Option ℕ → Bool
opt_id_eq none none = true
opt_id_eq (some a) (some b) = a == b
opt_id_eq _ _ = false

abbrev day_or_none : Option ℕ → Piece
day_or_none none = lit "none"
day_or_none (some d) = num d

abbrev note_if : Bool → List Piece → List (List Piece) → List (List Piece)
note_if changed what rest = if changed then what ∷ rest else rest

-- `changes`
unfoldable pub case_changes : CaseEdit → CaseType → CaseRecord → List (List Piece)
case_changes p new_type c = note_if (not (text_eq p.title c.title)) (lit "title" ∷ []) (
    note_if (not (text_eq p.description c.description)) (lit "description" ∷ []) (
      note_if (not (p.case_type_id == c.case_type_id))
        (lit "type (now " ∷ val new_type.type_name ∷ lit ")" ∷ [])
        (note_if (not (priority_eq p.priority c.priority))
          (lit "priority ("
            ∷ lit (priority_name c.priority)
            ∷ lit " to "
            ∷ lit (priority_name p.priority)
            ∷ lit ")"
            ∷ [])
          (note_if (not (opt_id_eq p.due_date c.due_date))
            (lit "due date ("
              ∷ day_or_none c.due_date
              ∷ lit " to "
              ∷ day_or_none p.due_date
              ∷ lit ")"
              ∷ [])
            []))))

-- `", ".join(changes)`
unfoldable pub joined_changes : List (List Piece) → List Piece
joined_changes [] = []
joined_changes (w ∷ []) = w
joined_changes (w ∷ v ∷ ws) = w ++ lit ", " ∷ joined_changes (v ∷ ws)

-- `due_date and due_date < created_at.date()`, if the date is a new one
unfoldable pub due_before_created : (day : ℕ → ℕ) → CaseEdit → CaseRecord → Bool
due_before_created day p c =
    not (opt_id_eq p.due_date c.due_date)
    && elim p.due_date [ none ↦ false | some d ↦ ltb d (day c.created_at) ]

unfoldable pub set_details : Request → CaseEdit → CaseRecord → CaseRecord
set_details q p c = record c {
  title = p.title;
  description = p.description;
  case_type_id = p.case_type_id;
  priority = p.priority;
  due_date = p.due_date;
  updated_at = q.now;
}

unfoldable pub save_changes :
    (day : ℕ → ℕ)
    → Request
    → Actor
    → CaseEdit
    → Store
    → CaseRecord
    → List (List Piece)
    → Outcome CaseError (Bool × Store)
unfolding joined_changes
save_changes day q user p s c [] = ok (false, s)
save_changes day q user p s c (w ∷ ws) = do
  s1 ← update_cases day s c (set_details q p)
  ok (
    true,
    record_audit q
        (case_audit user.user_id "case.update" c.case_reference
          (lit "Changed: " ∷ joined_changes (w ∷ ws)))
        s1,
  )

-- `update_case`; a case's version is its updated_at.
unfoldable pub update_case :
    (day : ℕ → ℕ) → Request → ℕ → Actor → CaseEdit → Store → Outcome CaseError (Bool × Store)
unfolding case_changes save_changes
update_case day q cid user p s = do
  c ← lock_case s cid
  require (can_manage_case user (case_view s c)) may_not_edit
  require (c.updated_at == p.expected_version) changed_meanwhile
  new_type ← or_raise (find (λ t. t.case_type_id == p.case_type_id) s.case_types) choose_valid_type
  require (not (due_before_created day p c)) due_too_early
  save_changes day q user p s c (case_changes p new_type c)

abbrev status_name : CaseStatus → String
status_name open_case = "Open"
status_name in_progress_case = "In Progress"
status_name on_hold = "On Hold"
status_name closed = "Closed"

unfoldable pub set_case_status : Request → CaseStatus → CaseRecord → CaseRecord
set_case_status q status c = record c { status = status; updated_at = q.now }

-- `change_status`; EDITABLE_STATUSES are all but Closed.
unfoldable pub change_status :
    (day : ℕ → ℕ) → Request → ℕ → Actor → CaseStatus → Store → Outcome CaseError Store
change_status day q cid user status s = do
  require (not (is_closed status)) may_not_change_status
  c ← lock_case s cid
  require (can_manage_case user (case_view s c)) may_not_change_status
  require (not (case_status_eq c.status status)) same_status
  s1 ← update_cases day s c (set_case_status q status)
  ok (
      record_audit q
        (case_audit user.user_id "case.status" c.case_reference
          (lit (status_name c.status) ∷ lit " to " ∷ lit (status_name status) ∷ []))
        s1)

-- `_blockers` of a case that exists: whether there is none
unfoldable pub no_blockers : Store → CaseRecord → Bool
no_blockers s c =
    not (exists (λ e. e.case_id == c.case_id) s.evidence)
    && not (exists (λ x. x.case_id == c.case_id) s.examinations)
    && not (exists (λ r. r.case_id == c.case_id) s.reports)
    && not (exists (λ n. n.case_id == c.case_id) s.notes)
    && not (is_closed c.status)

-- The two DELETEs of `delete_case`
unfoldable pub drop_case : ℕ → Store → Store
drop_case cid s = record s {
  assignments = delete_where (λ a. a.case_id == cid) s.assignments;
  cases = delete_where (λ c. c.case_id == cid) s.cases;
}

abbrev pub deletion_audit : Actor → CaseRecord → Option Text → AuditCall
deletion_audit user c reason = case_audit user.user_id "case.delete" c.case_reference (
    lit "Deleted empty case '"
    ∷ val c.title
    ∷ lit "'. Reason: "
    ∷ val (strip (or_empty reason))
    ∷ [])

-- `delete_case`
unfoldable pub delete_case :
    Request → ℕ → Actor → Option Text → Text → Store → Outcome CaseError (Text × Store)
unfolding drop_case
delete_case q cid user reason typed s = do
  require (holds administrator user.roles) only_administrators
  require (leb 10 (length (strip (or_empty reason)))) reason_too_short
  c ← lock_case s cid
  require (text_eq (upper (strip typed)) c.case_reference) type_reference
  require (no_blockers s c) has_history
  ok (c.case_reference, record_audit q (deletion_audit user c reason) (drop_case cid s))

-- trg_cn_before_insert: the case is not closed, and a corrected note is one of the same case.
unfoldable pub note_allowed : Store → CaseNote → Bool
note_allowed s n =
    not (exists (λ c. c.case_id == n.case_id && is_closed c.status) s.cases)
    && elim n.corrects_note_id [
      | none ↦ true
      | some k ↦ exists (λ m. m.note_id == k && m.case_id == n.case_id) s.notes
    ]

abbrev corrects_pieces : Option ℕ → List Piece
corrects_pieces none = []
corrects_pieces (some k) = lit " corrects note #" ∷ num k ∷ []

-- `add_note`; `shown` and `reference` are of the row that the page read before.
unfoldable pub add_note :
    Request
    → ℕ
    → CaseRow
    → Text
    → Actor
    → Option Text
    → Option Text
    → Option ℕ
    → Store
    → Outcome CaseError (ℕ × Store)
add_note q cid shown code user text reference corrects s = do
  let note = strip (or_empty text)
  require (leb 2 (length note) && leb (length note) 4000) note_length
  require (can_add_case_note user shown (is_assigned s user.user_id cid)) may_not_note
  let row : CaseNote = record {
    note_id = q.new_id;
    case_id = cid;
    note_text = note;
    reference = or_null (strip (or_empty reference));
    corrects_note_id = corrects;
    author_id = user.user_id;
  }
  require (note_allowed s row) note_refused
  ok (
    q.new_id,
    record_audit q
        (case_audit user.user_id "case.note" code
          (lit "Note #" ∷ num q.new_id ∷ corrects_pieces corrects))
        (record s { notes = s.notes ++ row ∷ [] }),
  )

unfoldable pub set_due : Request → ℕ → CaseRecord → CaseRecord
set_due q due c = record c { due_date = some due; updated_at = q.now }

-- The second transaction of `create_case`: the state it leaves, and the reference or its error.
abbrev pub dated :
    Request → ℕ → Text → ℕ → Store → Outcome CaseError Store → Outcome CaseError Text × Store
dated q uid reference due s (err e) = (err case_refused, s)
dated q uid reference due s (ok s') = (
  ok reference,
  record_audit q (case_audit uid "case.update" reference (lit "Due date set to " ∷ num due ∷ []))
      s',
)

abbrev pub due_row :
    (day : ℕ → ℕ) → Request → ℕ → Store → Option CaseRecord → Outcome CaseError Store
due_row day q due s none = ok s
due_row day q due s (some c) = update_cases day s c (set_due q due)

abbrev pub with_due :
    (day : ℕ → ℕ)
    → Request
    → ℕ
    → Option ℕ
    → Store
    → Outcome CaseError ((ℕ × Text) × Store)
    → Outcome CaseError Text × Store
with_due day q uid due s (err e) = (err e, s)
with_due day q uid none s (ok r) = (ok r.0.1, r.1)
with_due day q uid (some due) s (ok r) =
    dated q uid r.0.1 due r.1 (due_row day q due r.1 (case_by_id r.1 r.0.0))

-- `create_case`: a case whose due date is refused stays; `uid` is the signed-in user.
unfoldable pub create_case :
    (day : ℕ → ℕ) → Request → ℕ → ℕ → NewCase → Option ℕ → Store → Outcome CaseError Text × Store
create_case day q year uid p due s = with_due day q uid due s (sp_register_case q year p s)
