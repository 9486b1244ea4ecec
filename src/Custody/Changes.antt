-- ===== src/Custody/Changes.antt =====
-- `transfer` and `correct_entry` of app/custody/services.py, and the custody record of a download
-- (`open_for_download` of app/evidence/files.py). Each is one transaction.
use forge_x.Shared.{
  ltb, ◌==◌, if◌then◌else◌, is_some, take, find, ℕ, zero, suc, max, Bool, false, not, ◌&&◌, ◌||◌,
  Option, none, some, List, [], ◌∷◌,
}
use forge_x.Shared.Text.{Text, codes, or_null?, Piece, render}
use forge_x.Shared.Outcome.{Outcome, ok, ◌>>=◌, ◌>>◌, require, or_raise}
use forge_x.Store.{exported, Evidence, CustodyEntry, Store, Request}
use forge_x.Store.Roles.{evidence_by_id}
use forge_x.Store.Audit.{record_audit, done}
use forge_x.Custody.{action_eq, needs_storage_location}
use forge_x.Custody.Procedures.{
  CustodyError, item_not_found, choose_location_for, choose_or_describe, in_the_future,
  before_last_entry, exports_not_corrected, insert_custody, Transfer, sp_transfer_evidence,
  Correction, sp_record_custody_correction,
}

-- A form's id or None; 0 is as false as None.
abbrev pub truthy_id : Option ℕ → Option ℕ
truthy_id none = none
truthy_id (some zero) = none
truthy_id (some (suc n)) = some (suc n)

-- `(location_note or None) if not location_id else None`
abbrev note_unless : Option ℕ → Option Text → Option Text
note_unless lid note = if is_some (truthy_id lid) then none else or_null? note

abbrev pub later : ℕ → Option ℕ → Option ℕ
later t none = some t
later t (some u) = some (max t u)

-- SELECT MAX(occurred_at) … WHERE evidence_id = eid
unfoldable pub latest_entry_time : ℕ → List CustodyEntry → Option ℕ
latest_entry_time eid [] = none
latest_entry_time eid (x ∷ xs) =
    let rest = latest_entry_time eid xs in
    if x.evidence_id == eid then later x.occurred_at rest else rest

abbrev pub before : ℕ → Option ℕ → Bool
before t none = false
before t (some latest) = ltb t latest

-- The check of the time of the handover
unfoldable pub time_check : Request → ℕ → Option ℕ → Store → Outcome CustodyError Unit
time_check q eid none s = ok tt
time_check q eid (some t) s = do
  require (not (ltb q.now t)) in_the_future
  require (not (before t (latest_entry_time eid s.custody))) before_last_entry

-- What the service hands to the procedure
unfoldable pub to_procedure : Transfer → Transfer
to_procedure p = record p {
  location_id = truthy_id p.location_id;
  location_note = note_unless p.location_id p.location_note;
  seal_number = or_null? p.seal_number;
}

unfoldable pub transfer : Request → Transfer → Store → Outcome CustodyError (ℕ × Store)
unfolding time_check to_procedure
transfer q p s = do
  require (not (needs_storage_location p.action && not (is_some (truthy_id p.location_id))))
      choose_location_for
  require (is_some (truthy_id p.location_id) || is_some (or_null? p.location_note))
      choose_or_describe
  time_check q p.evidence_id p.occurred_at s
  sp_transfer_evidence q (to_procedure p) s

abbrev is_exported : Option CustodyEntry → Bool
is_exported none = false
is_exported (some e) = action_eq e.action exported

unfoldable pub correction_to_procedure : Correction → Correction
correction_to_procedure p = record p {
  location_id = truthy_id p.location_id;
  location_note = note_unless p.location_id p.location_note;
  seal_number = or_null? p.seal_number;
}

unfoldable pub correct_entry : Request → Correction → Store → Outcome CustodyError (ℕ × Store)
unfolding correction_to_procedure
correct_entry q p s = do
  require (not (is_exported (find (λ x. x.custody_id == p.corrects_custody_id) s.custody)))
      exports_not_corrected
  require (is_some (truthy_id p.location_id) || is_some (or_null? p.location_note))
      choose_or_describe
  sp_record_custody_correction q (correction_to_procedure p) s

abbrev unless_located : Option ℕ → Option Text
unless_located none = some (codes "Not in a storage location")
unless_located (some l) = none

-- The entry of a download by the user `uid`; `why` names the file, the user and its hash.
unfoldable pub export_entry : Request → ℕ → List Piece → Evidence → CustodyEntry
export_entry q uid why item = record {
  custody_id = q.new_id;
  evidence_id = item.evidence_id;
  action = exported;
  from_custodian_id = some item.current_custodian_id;
  to_custodian_id = item.current_custodian_id;
  location_id = item.current_location_id;
  location_note = unless_located item.current_location_id;
  evidence_condition = codes "Original unchanged; a copy was exported";
  seal_number = none;
  reason = take 500 (render why);
  occurred_at = q.now;
  recorded_by = uid;
  recorded_at = q.now;
  corrects_custody_id = none;
}

unfoldable pub export_item :
    Request → ℕ → List Piece → List Piece → Store → Evidence → Outcome CustodyError Store
export_item q uid why details s item = do
  s1 ← insert_custody s (export_entry q uid why item)
  ok (record_audit q (done uid "evidence.download" "Evidence" item.evidence_code details) s1)

-- The transaction of `open_for_download`, before anything is sent
unfoldable pub record_export :
    Request → ℕ → List Piece → List Piece → ℕ → Store → Outcome CustodyError Store
unfolding export_item
record_export q uid why details eid s = do
  item ← or_raise (evidence_by_id s eid) item_not_found
  export_item q uid why details s item
