-- ===== src/Custody/Procedures.antt =====
-- sp_transfer_evidence and sp_record_custody_correction of database/procedures.sql, with the
-- checks of chain_of_custody in schema.sql and its trigger. An error rolls everything back.
use forge_x.Shared.{
  ltb, leb, ◌==◌, if◌then◌else◌, is_some, find, exists, update_where, ℕ, String, Bool, true, false,
  not, ◌&&◌, ◌||◌, Option, none, some, List, [], ◌∷◌, ◌++◌,
}
use forge_x.Shared.Text.{Text, lit, num}
use forge_x.Shared.Outcome.{Outcome, ok, ◌>>=◌, ◌>>◌, require, or_raise}
use forge_x.Access.{administrator, custodian}
use forge_x.Store.{
  ItemStatus, in_transit, in_storage, checked_out, under_examination, released_item, archived_item,
  Action, collected, received, transferred, check_out, examined, returned, stored, released,
  archived, exported, Evidence, CustodyEntry, Store, Request, item_status_eq,
}
use forge_x.Store.Roles.{
  is_active_user, fn_has_role, is_assigned, evidence_by_id, location_is_active,
}
use forge_x.Store.Audit.{AuditCall, record_audit, done}

-- The SIGNALs of the two procedures, a failed constraint, and the refusals of
-- app/custody/services.py, in the order of their messages.
pub data CustodyError : Type 0 where
  item_not_found custodian_changed not_allowed_to_record action_not_allowed : CustodyError
  choose_storage_location custodian_not_active location_not_active : CustodyError
  entry_not_found only_staff_correct other_item constraint_failed : CustodyError
  choose_location_for choose_or_describe in_the_future before_last_entry : CustodyError
  exports_not_corrected : CustodyError

-- v_allowed
unfoldable pub sql_allowed : Action → ItemStatus → Bool
sql_allowed received in_transit = true
sql_allowed received checked_out = true
sql_allowed transferred in_transit = true
sql_allowed transferred in_storage = true
sql_allowed transferred checked_out = true
sql_allowed transferred under_examination = true
sql_allowed check_out in_storage = true
sql_allowed examined checked_out = true
sql_allowed examined under_examination = true
sql_allowed returned checked_out = true
sql_allowed returned under_examination = true
sql_allowed stored in_transit = true
sql_allowed stored in_storage = true
sql_allowed stored checked_out = true
sql_allowed released in_storage = true
sql_allowed archived in_storage = true
sql_allowed archived released_item = true
sql_allowed _ _ = false

-- v_new_status
unfoldable pub sql_new_status : Action → ItemStatus → ItemStatus
sql_new_status received current = in_storage
sql_new_status stored current = in_storage
sql_new_status returned current = in_storage
sql_new_status check_out current = checked_out
sql_new_status examined current = under_examination
sql_new_status released current = released_item
sql_new_status archived current = archived_item
sql_new_status _ current = current

abbrev is_collected : Action → Bool
is_collected collected = true
is_collected _ = false

-- p_action IN ('Checked Out','Examined','Returned')
abbrev pub investigator_may : Action → Bool
investigator_may check_out = true
investigator_may examined = true
investigator_may returned = true
investigator_may _ = false

abbrev pub stored_now : ItemStatus → Bool
stored_now in_storage = true
stored_now _ = false

abbrev known_location : Store → Option ℕ → Bool
known_location s none = true
known_location s (some lid) = exists (λ l. l.location_id == lid) s.locations

-- chk_coc_from, chk_coc_location, chk_coc_time and the foreign keys to users and locations
unfoldable pub custody_row_valid : Store → CustodyEntry → Bool
custody_row_valid s e =
    (if is_collected e.action
      then not (is_some e.from_custodian_id)
      else is_some e.from_custodian_id)
    && (is_some e.location_id || is_some e.location_note)
    && leb e.occurred_at e.recorded_at
    && exists (λ u. u.user_id == e.to_custodian_id) s.users
    && exists (λ u. u.user_id == e.recorded_by) s.users
    && known_location s e.location_id

-- The entry that `corrects_custody_id` names, if any, is of the same item (trg_coc_same_evidence).
unfoldable pub corrects_same_item : List CustodyEntry → CustodyEntry → Bool
corrects_same_item entries e = elim e.corrects_custody_id [
  | none ↦ true
  | some original ↦ elim (find (λ x. x.custody_id == original) entries) [
    | none ↦ false
    | some x ↦ x.evidence_id == e.evidence_id
  ]
]

-- INSERT INTO chain_of_custody
unfoldable pub insert_custody : Store → CustodyEntry → Outcome CustodyError Store
insert_custody s e = do
  require (corrects_same_item s.custody e) other_item
  require (custody_row_valid s e) constraint_failed
  ok (record s { custody = s.custody ++ e ∷ [] })

-- UPDATE evidence SET … WHERE evidence_id = eid
unfoldable pub update_item : ℕ → (Evidence → Evidence) → Store → Store
update_item eid f s = record s { evidence = update_where (λ e. e.evidence_id == eid) f s.evidence }

pub record Transfer : Type 0 where
  pub evidence_id : ℕ
  pub expected_custodian_id : ℕ
  pub action : Action
  pub to_custodian_id : ℕ
  pub location_id : Option ℕ
  pub location_note : Option Text
  pub evidence_condition : Text
  pub seal_number : Option Text
  pub reason : Text
  pub occurred_at : Option ℕ
  pub recorded_by : ℕ

abbrev pub or_now : Option ℕ → ℕ → ℕ
or_now none now = now
or_now (some t) now = t

unfoldable pub transfer_entry : Request → Transfer → Evidence → CustodyEntry
transfer_entry q p item = record {
  custody_id = q.new_id;
  evidence_id = p.evidence_id;
  action = p.action;
  from_custodian_id = some item.current_custodian_id;
  to_custodian_id = p.to_custodian_id;
  location_id = p.location_id;
  location_note = p.location_note;
  evidence_condition = p.evidence_condition;
  seal_number = p.seal_number;
  reason = p.reason;
  occurred_at = or_now p.occurred_at q.now;
  recorded_by = p.recorded_by;
  recorded_at = q.now;
  corrects_custody_id = none;
}

-- The permission of step 3 of the procedure
unfoldable pub may_record : Store → Transfer → Evidence → Bool
may_record s p item =
    fn_has_role s p.recorded_by administrator
    || fn_has_role s p.recorded_by custodian
    || (investigator_may p.action && is_assigned s p.recorded_by item.case_id)

abbrev pub active_location : Store → Option ℕ → Bool
active_location s none = true
active_location s (some lid) = location_is_active s lid

abbrev same_location : Option ℕ → Option ℕ → Bool
same_location none none = true
same_location (some a) (some b) = a == b
same_location _ _ = false

-- Whether an UPDATE to these values changes no column; then ON UPDATE CURRENT_TIMESTAMP keeps
-- updated_at.
unfoldable pub is_already : ItemStatus → ℕ → Option ℕ → Evidence → Bool
is_already status holder location item =
    item_status_eq item.current_status status
    && item.current_custodian_id == holder
    && same_location item.current_location_id location

unfoldable pub move_item : Request → Transfer → Evidence → Evidence
unfolding is_already
move_item q p item =
    let status = sql_new_status p.action item.current_status in
    record item {
      current_status = status;
      current_custodian_id = p.to_custodian_id;
      current_location_id = p.location_id;
      updated_at =
          if is_already status p.to_custodian_id p.location_id item then item.updated_at else q.now;
    }

pub action_name : Action → String
action_name collected = "Collected"
action_name received = "Received"
action_name transferred = "Transferred"
action_name check_out = "Checked Out"
action_name examined = "Examined"
action_name returned = "Returned"
action_name stored = "Stored"
action_name released = "Released"
action_name archived = "Archived"
action_name exported = "Exported"

abbrev pub transfer_audit : Request → Transfer → Evidence → AuditCall
transfer_audit q p item =
    done p.recorded_by "custody.transfer" "Evidence" item.evidence_code
      (lit (action_name p.action) ∷ lit ", custody entry #" ∷ num q.new_id ∷ [])

-- Steps 2 to 8, on the locked evidence row
unfoldable pub transfer_item :
    Request → Transfer → Store → Evidence → Outcome CustodyError (ℕ × Store)
transfer_item q p s item = do
  require (item.current_custodian_id == p.expected_custodian_id) custodian_changed
  require (may_record s p item) not_allowed_to_record
  require (sql_allowed p.action item.current_status) action_not_allowed
  require
      (not
        (stored_now (sql_new_status p.action item.current_status) && not (is_some p.location_id)))
      choose_storage_location
  require (is_active_user s p.to_custodian_id) custodian_not_active
  require (active_location s p.location_id) location_not_active
  s1 ← insert_custody s (transfer_entry q p item)
  let s2 = update_item p.evidence_id (move_item q p) s1
  ok (q.new_id, record_audit q (transfer_audit q p item) s2)

unfoldable pub sp_transfer_evidence : Request → Transfer → Store → Outcome CustodyError (ℕ × Store)
unfolding transfer_item
sp_transfer_evidence q p s = do
  item ← or_raise (evidence_by_id s p.evidence_id) item_not_found
  transfer_item q p s item

-- `ORDER BY occurred_at DESC, custody_id DESC`
abbrev pub newer : CustodyEntry → CustodyEntry → Bool
newer x y =
    ltb y.occurred_at x.occurred_at
    || (x.occurred_at == y.occurred_at && ltb y.custody_id x.custody_id)

abbrev pub newest : CustodyEntry → Option CustodyEntry → Option CustodyEntry
newest x none = some x
newest x (some y) = if newer x y then some x else some y

-- The item's first entry in that order
unfoldable pub latest_entry : ℕ → List CustodyEntry → Option CustodyEntry
latest_entry eid [] = none
latest_entry eid (x ∷ xs) =
    if x.evidence_id == eid then newest x (latest_entry eid xs) else latest_entry eid xs

pub record Correction : Type 0 where
  pub corrects_custody_id : ℕ
  pub to_custodian_id : ℕ
  pub location_id : Option ℕ
  pub location_note : Option Text
  pub evidence_condition : Text
  pub seal_number : Option Text
  pub reason : Text
  pub recorded_by : ℕ

unfoldable pub correction_entry : Request → Correction → CustodyEntry → CustodyEntry
correction_entry q p original = record {
  custody_id = q.new_id;
  evidence_id = original.evidence_id;
  action = original.action;
  from_custodian_id = original.from_custodian_id;
  to_custodian_id = p.to_custodian_id;
  location_id = p.location_id;
  location_note = p.location_note;
  evidence_condition = p.evidence_condition;
  seal_number = p.seal_number;
  reason = p.reason;
  occurred_at = original.occurred_at;
  recorded_by = p.recorded_by;
  recorded_at = q.now;
  corrects_custody_id = some p.corrects_custody_id;
}

unfoldable pub place_item : Request → Correction → Evidence → Evidence
unfolding is_already
place_item q p item = record item {
  current_custodian_id = p.to_custodian_id;
  current_location_id = p.location_id;
  updated_at =
      if is_already item.current_status p.to_custodian_id p.location_id item
      then item.updated_at
      else q.now;
}

abbrev pub is_entry : Option CustodyEntry → ℕ → Bool
is_entry none cid = false
is_entry (some e) cid = e.custody_id == cid

-- `IF v_latest = p_custody_id THEN UPDATE evidence …`
unfoldable pub follow_latest : Request → Correction → ℕ → Store → Store
follow_latest q p eid s =
    if is_entry (latest_entry eid s.custody) q.new_id then update_item eid (place_item q p) s else s

abbrev code_of : Option Evidence → Text
code_of none = []
code_of (some e) = e.evidence_code

abbrev pub correction_audit : Request → Correction → Option Evidence → AuditCall
correction_audit q p item =
    done p.recorded_by "custody.correct" "Evidence" (code_of item)
      (lit "Entry #" ∷ num q.new_id ∷ lit " corrects #" ∷ num p.corrects_custody_id ∷ [])

-- The procedure after the entry to correct is found
unfoldable pub correct_original :
    Request → Correction → Store → CustodyEntry → Outcome CustodyError (ℕ × Store)
correct_original q p s original = do
  require (fn_has_role s p.recorded_by administrator || fn_has_role s p.recorded_by custodian)
      only_staff_correct
  s1 ← insert_custody s (correction_entry q p original)
  let s2 = follow_latest q p original.evidence_id s1
  ok (q.new_id, record_audit q (correction_audit q p (evidence_by_id s original.evidence_id)) s2)

unfoldable pub sp_record_custody_correction :
    Request → Correction → Store → Outcome CustodyError (ℕ × Store)
unfolding correct_original
sp_record_custody_correction q p s = do
  original ← or_raise (find (λ x. x.custody_id == p.corrects_custody_id) s.custody) entry_not_found
  correct_original q p s original
