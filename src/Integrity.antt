-- ===== src/Integrity.antt =====
-- app/integrity/services.py: recording, verifying and correcting reference hashes, each in one
-- transaction, with the constraints of evidence_hashes and hash_verifications in
-- database/schema.sql and the triggers trg_eh_same_evidence and trg_hv_set_result.
pub mod Current
pub mod Reference
pub mod Table
pub mod Services
pub mod Tests
use forge_x.Shared.{
  leb, ◌==◌, if◌then◌else◌, holds_id, is_some, length, find, exists, all, ℕ, String, Bool, true,
  false, not, ◌&&◌, ◌||◌, Option, none, some, List, [], ◌∷◌, ◌++◌,
}
use forge_x.Shared.Text.{Text, text_eq, or_null?, lit, num, val}
use forge_x.Shared.Outcome.{Outcome, ok, ◌>>=◌, ◌>>◌, require, or_raise}
use forge_x.Store.{
  HashSource, computed, manual, HashMethod, sample_file, manual_entry, stored_file, HashResult,
  verified, failed, Evidence, HashRow, Verification, Store, Request,
}
use forge_x.Store.Roles.{evidence_by_id}
use forge_x.Store.Audit.{record_audit, done}

pub data IntegrityError : Type 0 where
  no_item already_recorded nothing_to_verify nothing_to_correct same_hash : IntegrityError
  hash_refused superseded_hash reference_not_found : IntegrityError

-- A digit of `[0-9a-f]`
unfoldable pub is_hex : ℕ → Bool
is_hex c = (leb b'0' c && leb c b'9') || (leb b'a' c && leb c b'f')

-- `^[0-9a-f]{64}$` on a CHAR(64) column
unfoldable pub is_sha256 : Text → Bool
unfolding is_hex
is_sha256 t = length t == 64 && all is_hex t

unfoldable pub supersedes : HashRow → ℕ → Bool
supersedes h hid = holds_id h.supersedes_hash_id hid

-- EXISTS (SELECT 1 FROM evidence_hashes s WHERE s.supersedes_hash_id = h.hash_id)
unfoldable pub superseded : List HashRow → ℕ → Bool
superseded hs hid = exists (λ h. supersedes h hid) hs

unfoldable pub is_current : List HashRow → ℕ → HashRow → Bool
is_current hs eid h = h.evidence_id == eid && not (superseded hs h.hash_id)

-- `_current_hash`
unfoldable pub current_hash : List HashRow → ℕ → Option HashRow
current_hash hs eid = find (is_current hs eid) hs

abbrev pub is_manual : HashSource → Bool
is_manual manual = true
is_manual computed = false

-- Whether a row is the root of its item's chain, and the item then.
abbrev is_root_of : ℕ → HashRow → Bool
is_root_of eid h = not (is_some h.supersedes_hash_id) && h.evidence_id == eid

-- uq_eh_supersedes, uq_eh_one_root, chk_eh_format, chk_eh_manual_notes, chk_eh_correction
unfoldable pub hash_row_valid : List HashRow → HashRow → Bool
hash_row_valid hs h =
    not (elim h.supersedes_hash_id [ none ↦ false | some hid ↦ superseded hs hid ])
    && not (not (is_some h.supersedes_hash_id) && exists (is_root_of h.evidence_id) hs)
    && is_sha256 h.hash_value
    && (not (is_manual h.source) || is_some h.source_notes)
    && (if is_some h.supersedes_hash_id
        then is_some h.correction_reason
        else not (is_some h.correction_reason))

-- trg_eh_same_evidence
unfoldable pub same_evidence : List HashRow → HashRow → Bool
same_evidence hs h = elim h.supersedes_hash_id [
  | none ↦ true
  | some hid ↦ elim (find (λ x. x.hash_id == hid) hs) [
    | none ↦ false
    | some x ↦ x.evidence_id == h.evidence_id
  ]
]

-- INSERT INTO evidence_hashes
unfoldable pub insert_hash : Store → HashRow → Outcome IntegrityError Store
insert_hash s h = do
  require (same_evidence s.hashes h) hash_refused
  require (hash_row_valid s.hashes h) hash_refused
  ok (record s { hashes = s.hashes ++ h ∷ [] })

pub record HashEntry : Type 0 where
  pub evidence_id : ℕ
  pub user_id : ℕ
  pub hash_value : Text
  pub source : HashSource
  pub notes : Option Text

unfoldable pub original_row : Request → HashEntry → HashRow
original_row q p = record {
  hash_id = q.new_id;
  evidence_id = p.evidence_id;
  hash_value = p.hash_value;
  source = p.source;
  source_notes = or_null? p.notes;
  recorded_by = p.user_id;
  supersedes_hash_id = none;
  correction_reason = none;
}

abbrev pub source_name : HashSource → String
source_name computed = "Computed"
source_name manual = "Manual"

unfoldable pub record_original_hash : Request → HashEntry → Store → Outcome IntegrityError Store
record_original_hash q p s = do
  item ← or_raise (evidence_by_id s p.evidence_id) no_item
  require (not (is_some (current_hash s.hashes p.evidence_id))) already_recorded
  s1 ← insert_hash s (original_row q p)
  ok (
      record_audit q
        (done p.user_id "hash.record" "Evidence" item.evidence_code
          (lit "Original SHA-256 recorded (" ∷ lit (source_name p.source) ∷ lit ")" ∷ []))
        s1)

pub record Check : Type 0 where
  pub evidence_id : ℕ
  pub user_id : ℕ
  pub computed_hash : Text
  pub method : HashMethod
  pub sample_file_name : Option Text
  pub sample_size : Option ℕ
  pub notes : Option Text

abbrev needs_name : HashMethod → Bool
needs_name manual_entry = false
needs_name _ = true

-- chk_hv_format, chk_hv_method
unfoldable pub verification_valid : Verification → Bool
verification_valid v =
    is_sha256 v.computed_hash
    && (if needs_name v.method then is_some v.sample_file_name else is_some v.notes)

abbrev pub compare_hash : Text → Text → HashResult
compare_hash given reference = if text_eq given reference then verified else failed

-- trg_hv_set_result: the row with its result, or the trigger's error
unfoldable pub set_result : List HashRow → Verification → Outcome IntegrityError Verification
set_result hs v = do
  reference ← or_raise (find (λ h. h.hash_id == v.hash_id) hs) reference_not_found
  require (not (superseded hs v.hash_id)) superseded_hash
  ok (record v { result = compare_hash v.computed_hash reference.hash_value })

unfoldable pub check_row : Request → Check → HashRow → Verification
check_row q p current = record {
  verification_id = q.new_id;
  hash_id = current.hash_id;
  computed_hash = p.computed_hash;
  result = failed;
  method = p.method;
  sample_file_name = p.sample_file_name;
  sample_size_bytes = p.sample_size;
  notes = or_null? p.notes;
  verified_by = p.user_id;
}

abbrev pub result_name : HashResult → String
result_name verified = "Verified"
result_name failed = "Failed"

abbrev pub method_name : HashMethod → String
method_name sample_file = "Sample file"
method_name manual_entry = "Manual entry"
method_name stored_file = "Stored file"

-- `verify` after the item is locked and its current hash read
unfoldable pub verify_against :
    Request
    → Check
    → Store
    → Evidence
    → HashRow
    → Outcome IntegrityError ((HashResult × Text) × Store)
verify_against q p s item current = do
  row ← set_result s.hashes (check_row q p current)
  require (verification_valid row) hash_refused
  let s1 = record s { verifications = s.verifications ++ row ∷ [] }
  ok (
    (row.result, current.hash_value),
    record_audit q
        (done p.user_id "hash.verify" "Evidence" item.evidence_code (
          lit "Result "
          ∷ lit (result_name row.result)
          ∷ lit " ("
          ∷ lit (method_name p.method)
          ∷ lit ")"
          ∷ []))
        s1,
  )

unfoldable pub verify :
    Request → Check → Store → Outcome IntegrityError ((HashResult × Text) × Store)
unfolding verify_against
verify q p s = do
  item ← or_raise (evidence_by_id s p.evidence_id) no_item
  current ← or_raise (current_hash s.hashes p.evidence_id) nothing_to_verify
  verify_against q p s item current

unfoldable pub corrected_row : Request → HashEntry → Text → HashRow → HashRow
corrected_row q p reason current = record {
  hash_id = q.new_id;
  evidence_id = p.evidence_id;
  hash_value = p.hash_value;
  source = p.source;
  source_notes = or_null? p.notes;
  recorded_by = p.user_id;
  supersedes_hash_id = some current.hash_id;
  correction_reason = some reason;
}

-- `correct_hash` after the item is locked and its current hash read
unfoldable pub supersede :
    Request → HashEntry → Text → Store → Evidence → HashRow → Outcome IntegrityError Store
supersede q p reason s item current = do
  require (not (text_eq current.hash_value p.hash_value)) same_hash
  s1 ← insert_hash s (corrected_row q p reason current)
  ok (
      record_audit q
        (done p.user_id "hash.correct" "Evidence" item.evidence_code
          (lit "Hash #" ∷ num current.hash_id ∷ lit " superseded: " ∷ val reason ∷ []))
        s1)

unfoldable pub correct_hash : Request → HashEntry → Text → Store → Outcome IntegrityError Store
unfolding supersede
correct_hash q p reason s = do
  item ← or_raise (evidence_by_id s p.evidence_id) no_item
  current ← or_raise (current_hash s.hashes p.evidence_id) nothing_to_correct
  supersede q p reason s item current
