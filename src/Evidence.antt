-- ===== src/Evidence.antt =====
-- app/evidence/services.py: the registration of an item with sp_register_evidence of
-- database/procedures.sql, and the edit of its details. The ids of evidence_types are a parameter.
pub mod Texts
pub mod Registered
pub mod InStep
pub mod Tests
use forge_x.Shared.{
  ltb, leb, ◌==◌, if◌then◌else◌, is_some, exists, select, ℕ, String, Bool, true, false, not, ◌&&◌,
  ◌||◌, Option, none, some, List, [], ◌∷◌, ◌++◌,
}
use forge_x.Shared.Text.{
  Text, codes, strip, lower, text_eq, opt_text_eq, or_empty, or_null, or_null?, Piece, lit,
}
use forge_x.Shared.Outcome.{Outcome, err, ok, ◌>>=◌, ◌>>◌, require, or_raise}
use forge_x.Access.{
  administrator, custodian, is_closed, Actor, ItemRow, registers_for_any_case, can_edit_evidence,
}
use forge_x.Store.{
  in_transit, collected, HashSource, CaseRecord, Evidence, CustodyEntry, HashRow, Store, Request,
}
use forge_x.Store.Roles.{
  is_active_user, fn_has_role, is_assigned, case_by_id, evidence_by_id, lead_of,
}
use forge_x.Store.Audit.{record_audit, done}
use forge_x.Store.Sequence.{evidence_seq, next_reference, business_code}
use forge_x.Custody.Procedures.{insert_custody, update_item}
use forge_x.Integrity.{is_manual, insert_hash}
use forge_x.Storage.{after_hex, at_end}

pub data EvidenceError : Type 0 where
  not_your_case collected_in_future malformed_hash say_where_copied : EvidenceError
  case_missing case_is_closed may_not_register collector_inactive refused_details : EvidenceError
  evidence_not_found may_not_edit_item item_changed_meanwhile : EvidenceError

-- `normalise_hash`
unfoldable pub normalise_hash : Option Text → Option Text
normalise_hash value = or_null (lower (strip (or_empty value)))

-- `is_valid_sha256`; `$` of HASH_RE also matches before a last line feed.
unfoldable pub is_valid_sha256 : Text → Bool
is_valid_sha256 value = at_end (after_hex 64 value)

-- `registrable_cases`, not sorted
unfoldable pub registrable_cases : Actor → Store → List CaseRecord
registrable_cases user s =
    if registers_for_any_case user
    then select (λ c. not (is_closed c.status)) s.cases
    else select (λ c. is_assigned s user.user_id c.case_id && not (is_closed c.status)) s.cases

-- The ids that AUTO_INCREMENT gives to the rows of a registration
pub record NewIds : Type 0 where
  pub evidence_id : ℕ
  pub custody_id : ℕ
  pub hash_id : ℕ

pub record Registration : Type 0 where
  pub case_id : ℕ
  pub evidence_type_id : ℕ
  pub description : Text
  pub source_details : Option Text
  pub size_bytes : Option ℕ
  pub collected_at : ℕ
  pub collected_by : ℕ
  pub collection_site : Text
  pub collection_condition : Text
  pub seal_number : Option Text
  pub hash_value : Option Text
  pub hash_source : HashSource
  pub hash_notes : Option Text
  pub registered_by : ℕ

-- INSERT INTO evidence
unfoldable pub new_item : Request → NewIds → Text → Registration → Evidence
new_item q ids code p = record {
  evidence_id = ids.evidence_id;
  evidence_code = code;
  case_id = p.case_id;
  evidence_type_id = p.evidence_type_id;
  description = p.description;
  source_details = p.source_details;
  size_bytes = p.size_bytes;
  collected_at = p.collected_at;
  collected_by = p.collected_by;
  collection_site = p.collection_site;
  collection_condition = p.collection_condition;
  current_status = in_transit;
  current_custodian_id = p.collected_by;
  current_location_id = none;
  updated_at = q.now;
}

-- INSERT INTO chain_of_custody
unfoldable pub first_entry : Request → NewIds → Registration → CustodyEntry
first_entry q ids p = record {
  custody_id = ids.custody_id;
  evidence_id = ids.evidence_id;
  action = collected;
  from_custodian_id = none;
  to_custodian_id = p.collected_by;
  location_id = none;
  location_note = some p.collection_site;
  evidence_condition = p.collection_condition;
  seal_number = p.seal_number;
  reason = codes "Collected at site";
  occurred_at = p.collected_at;
  recorded_by = p.registered_by;
  recorded_at = q.now;
  corrects_custody_id = none;
}

-- INSERT INTO evidence_hashes
unfoldable pub first_hash : NewIds → Registration → Text → HashRow
first_hash ids p value = record {
  hash_id = ids.hash_id;
  evidence_id = ids.evidence_id;
  hash_value = lower value;
  source = p.hash_source;
  source_notes = p.hash_notes;
  recorded_by = p.registered_by;
  supersedes_hash_id = none;
  correction_reason = none;
}

-- fk_ev_type, fk_ev_collector, uq_evidence_code and chk_ev_dates; a new row is registered now.
unfoldable pub item_valid : Request → (types : List ℕ) → Store → Evidence → Bool
item_valid q types s e =
    exists (λ t. t == e.evidence_type_id) types
    && exists (λ u. u.user_id == e.collected_by) s.users
    && not (exists (λ x. text_eq x.evidence_code e.evidence_code) s.evidence)
    && leb e.collected_at q.now

-- A refusal of the database, as `register_evidence` reports it
abbrev pub or_refused : {E : Type 0} → Outcome E Store → Outcome EvidenceError Store
or_refused (err e) = err refused_details
or_refused (ok s) = ok s

unfoldable pub insert_first_hash : NewIds → Registration → Store → Outcome EvidenceError Store
unfolding first_hash
insert_first_hash ids p s = elim p.hash_value [
  | none ↦ ok s
  | some value ↦ or_refused (insert_hash s (first_hash ids p value))
]

abbrev pub hash_message : Option Text → Piece
hash_message none = lit "No hash recorded yet"
hash_message (some value) = lit "Original SHA-256 recorded"

-- The inserts of `sp_register_evidence`
unfoldable pub insert_registered :
    Request → (types : List ℕ) → NewIds → Text → Registration → Store → Outcome EvidenceError Store
unfolding new_item first_entry insert_first_hash item_valid
insert_registered q types ids code p s = do
  require (item_valid q types s (new_item q ids code p)) refused_details
  let s1 = record s { evidence = s.evidence ++ new_item q ids code p ∷ [] }
  s2 ← or_refused (insert_custody s1 (first_entry q ids p))
  s3 ← insert_first_hash ids p s2
  ok (
      record_audit q
        (done p.registered_by "evidence.register" "Evidence" code (hash_message p.hash_value ∷ []))
        s3)

-- `sp_register_evidence`; `year` is YEAR(CURDATE()).
unfoldable pub sp_register_evidence :
    Request
    → (types : List ℕ) (year : ℕ) → NewIds
    → Registration
    → Store
    → Outcome EvidenceError (Text × Store)
unfolding insert_registered
sp_register_evidence q types year ids p s = do
  let number = next_reference evidence_seq year s.counters
  case ← or_raise (case_by_id s p.case_id) case_missing
  require (not (is_closed case.status)) case_is_closed
  require
      (fn_has_role s p.registered_by administrator
        || fn_has_role s p.registered_by custodian
        || is_assigned s p.registered_by p.case_id)
      may_not_register
  require (is_active_user s p.collected_by) collector_inactive
  let code = business_code "FX-EV-" year 5 number.0
  s' ← insert_registered q types ids code p (record s { counters = number.1 })
  ok (code, s')

abbrev pub hash_checked : Option Text → Bool
hash_checked none = true
hash_checked (some value) = is_valid_sha256 value

-- What the service passes on: empty texts as NULL, the notes only with a hash, and the user's id.
unfoldable pub to_sp : Actor → Registration → Registration
to_sp user p = record p {
  source_details = or_null? p.source_details;
  seal_number = or_null? p.seal_number;
  hash_notes = elim p.hash_value [ none ↦ none | some value ↦ or_null? p.hash_notes ];
  registered_by = user.user_id;
}

-- `register_evidence`
unfoldable pub register_evidence :
    Request
    → (types : List ℕ) (year : ℕ) → NewIds
    → Actor
    → Registration
    → Store
    → Outcome EvidenceError (Text × Store)
unfolding registrable_cases to_sp
register_evidence q types year ids user p s = do
  require (exists (λ c. c.case_id == p.case_id) (registrable_cases user s)) not_your_case
  require (not (ltb q.now p.collected_at)) collected_in_future
  require (hash_checked p.hash_value) malformed_hash
  require
      (not
        (is_some p.hash_value && is_manual p.hash_source && not (is_some (or_null? p.hash_notes))))
      say_where_copied
  sp_register_evidence q types year ids (to_sp user p) s

pub record ItemEdit : Type 0 where
  pub description : Text
  pub source_details : Option Text
  pub size_bytes : Option ℕ
  pub collection_site : Text
  pub expected_version : ℕ

abbrev opt_number_eq : Option ℕ → Option ℕ → Bool
opt_number_eq none none = true
opt_number_eq (some a) (some b) = a == b
opt_number_eq _ _ = false

abbrev note_change : Bool → String → List Piece → List Piece
note_change changed name [] = if changed then lit name ∷ [] else []
note_change changed name (p ∷ ps) = if changed then lit name ∷ lit ", " ∷ p ∷ ps else p ∷ ps

-- `changes`, joined by commas
unfoldable pub item_changes : ItemEdit → Evidence → List Piece
item_changes p i = note_change (not (text_eq p.description i.description)) "description" (
    note_change (not (opt_text_eq (or_null? p.source_details) i.source_details)) "source details" (
      note_change (not (opt_number_eq p.size_bytes i.size_bytes)) "size bytes"
        (note_change (not (text_eq p.collection_site i.collection_site)) "collection site" [])))

-- UPDATE evidence, whose updated_at follows
unfoldable pub edit_item : Request → ItemEdit → Evidence → Evidence
edit_item q p i = record i {
  description = p.description;
  source_details = or_null? p.source_details;
  size_bytes = p.size_bytes;
  collection_site = p.collection_site;
  updated_at = q.now;
}

-- The columns that can_edit_evidence reads, of the joined row
unfoldable pub item_view : Store → Evidence → CaseRecord → ItemRow
item_view s i c = record {
  case_status = c.status;
  lead_user_id = lead_of s c.case_id;
  current_hash_value = none;
}

unfoldable pub edit_found :
    Request
    → Actor
    → ItemEdit
    → Store
    → Evidence
    → CaseRecord
    → Outcome EvidenceError (Bool × Store)
unfolding item_view item_changes edit_item
edit_found q user p s i c = do
  require (can_edit_evidence user (item_view s i c)) may_not_edit_item
  require (i.updated_at == p.expected_version) item_changed_meanwhile
  elim (item_changes p i) [
    | [] ↦ ok (false, s)
    | piece ∷ pieces ↦ ok (
      true,
      record_audit q
          (done user.user_id "evidence.update" "Evidence" i.evidence_code
            (lit "Changed: " ∷ piece ∷ pieces))
          (update_item i.evidence_id (edit_item q p) s),
    )
  ]

-- `update_evidence`: whether anything changed, and the state after it
unfoldable pub update_evidence :
    Request → Actor → ℕ → ItemEdit → Store → Outcome EvidenceError (Bool × Store)
unfolding edit_found
update_evidence q user eid p s = do
  i ← or_raise (evidence_by_id s eid) evidence_not_found
  c ← or_raise (case_by_id s i.case_id) evidence_not_found
  edit_found q user p s i c
