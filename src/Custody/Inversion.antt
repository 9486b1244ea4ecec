-- ===== src/Custody/Inversion.antt =====
-- What a successful transfer, correction or export has checked and written.
use forge_x.Shared.{
  ◌==◌, if◌then◌else◌, is_some, Option-cases, find, update_where, ℕ, ◌≤◌, ◌≡◌, inl, inr, true,
  false, ◌||◌, none, some, List, [], ◌∷◌, ◌++◌, arith,
}
use forge_x.Shared.Text.{Piece}
use forge_x.Shared.Outcome.{ok}
use forge_x.Access.{administrator, custodian}
use forge_x.Store.{in_storage, Evidence, CustodyEntry, Store, Request}
use forge_x.Store.Roles.{is_active_user, fn_has_role, evidence_by_id}
use forge_x.Store.Audit.{audit_row, record_audit}
use forge_x.Custody.Procedures.{
  sql_allowed, sql_new_status, insert_custody, update_item, Transfer, or_now, transfer_entry,
  may_record, active_location, is_already, move_item, transfer_audit, transfer_item,
  sp_transfer_evidence, latest_entry, Correction, correction_entry, place_item, is_entry,
  follow_latest, correct_original, sp_record_custody_correction,
}
use forge_x.Custody.Changes.{
  latest_entry_time, before, to_procedure, transfer, correction_to_procedure, correct_entry,
  export_entry, export_item, record_export,
}

-- An accepted transfer.
pub record Moved (q : Request) (p : Transfer) (s : Store) (s' : Store) : Type 0 where
  pub item : Evidence
  pub found : evidence_by_id s p.evidence_id ≡ some item
  pub seen : item.current_custodian_id ≡ p.expected_custodian_id
  pub permitted : may_record s p item ≡ true
  pub allowed : sql_allowed p.action item.current_status ≡ true
  pub placed :
      sql_new_status p.action item.current_status ≡ in_storage → is_some p.location_id ≡ true
  pub active : is_active_user s p.to_custodian_id ≡ true
  pub located : active_location s p.location_id ≡ true
  pub appended :
      s'.custody
      ≡ s.custody
        ++ record {
          custody_id = q.new_id;
          evidence_id = p.evidence_id;
          action = p.action;
          from_custodian_id = some item.current_custodian_id;
          to_custodian_id = p.to_custodian_id;
          location_id = p.location_id;
          location_note = p.location_note;
          evidence_condition = p.evidence_condition;
          seal_number = p.seal_number;
          reason = p.reason;
          occurred_at = or_now p.occurred_at q.now;
          recorded_by = p.recorded_by;
          recorded_at = q.now;
          corrects_custody_id = none;
        }
          ∷ []
  pub moved :
      s'.evidence
      ≡ update_where
          (λ e. e.evidence_id == p.evidence_id)
          (λ e. record e {
            current_status = sql_new_status p.action e.current_status;
            current_custodian_id = p.to_custodian_id;
            current_location_id = p.location_id;
            updated_at =
                if is_already
                  (sql_new_status p.action e.current_status)
                  p.to_custodian_id
                  p.location_id
                  e
                then e.updated_at
                else q.now;
          })
          s.evidence
  pub audited : s'.audit ≡ s.audit ++ audit_row q (transfer_audit q p item) ∷ []

transfer_item-Moved :
    (q : Request) (p : Transfer) (s : Store) (item : Evidence) (r : ℕ × Store)
    → evidence_by_id s p.evidence_id ≡ some item
    → transfer_item q p s item ≡ ok r
    → (r.0 ≡ q.new_id) × Moved q p s r.1
unfolding transfer_item insert_custody update_item record_audit transfer_entry move_item
transfer_item-Moved q p s item r e h = (
  ground arith,
  record {
    item = item;
    found = e;
    seen = ground arith;
    permitted = ground arith;
    allowed = ground arith;
    placed = λ st. ground arith;
    active = ground arith;
    located = ground arith;
    appended = ground arith;
    moved = ground arith;
    audited = ground arith;
  },
)

-- An accepted correction.
pub record Corrected (q : Request) (p : Correction) (s : Store) (s' : Store) : Type 0 where
  pub original : CustodyEntry
  pub found : find (λ x. x.custody_id == p.corrects_custody_id) s.custody ≡ some original
  pub permitted :
      (fn_has_role s p.recorded_by administrator || fn_has_role s p.recorded_by custodian) ≡ true
  pub appended : s'.custody ≡ s.custody ++ correction_entry q p original ∷ []
  pub followed : s'.evidence ≡ (
      if is_entry (latest_entry original.evidence_id s'.custody) q.new_id
      then update_where (λ e. e.evidence_id == original.evidence_id) (place_item q p) s.evidence
      else s.evidence)

-- An export that is recorded.
pub record Exported (q : Request) (uid : ℕ) (why : List Piece) (eid : ℕ) (s : Store) (s' : Store)
    : Type 0 where
  pub item : Evidence
  pub found : evidence_by_id s eid ≡ some item
  pub appended : s'.custody ≡ s.custody ++ export_entry q uid why item ∷ []
  pub unmoved : s'.evidence ≡ s.evidence

correct_original-Corrected :
    (q : Request) (p : Correction) (s : Store) (original : CustodyEntry) (r : ℕ × Store)
    → find (λ x. x.custody_id == p.corrects_custody_id) s.custody ≡ some original
    → correct_original q p s original ≡ ok r
    → Corrected q p s r.1
unfolding correct_original insert_custody update_item record_audit follow_latest
correct_original-Corrected q p s original r e h = record {
  original = original;
  found = e;
  permitted = ground arith;
  appended = ground arith;
  followed = ground arith;
}

export_item-Exported :
    (q : Request) (uid : ℕ) (why details : List Piece) (eid : ℕ) (s s' : Store) (item : Evidence)
    → evidence_by_id s eid ≡ some item
    → export_item q uid why details s item ≡ ok s'
    → Exported q uid why eid s s'
unfolding export_item insert_custody record_audit
export_item-Exported q uid why details eid s s' item e h = record {
  item = item;
  found = e;
  appended = ground arith;
  unmoved = ground arith;
}

module _ (q : Request) (s : Store) where
  -- A transfer that is accepted returns the new entry's id and has checked the expected custodian,
  -- the permission, the table of actions, the storage location and the active recipient, and has
  -- written its custody entry, from the custodian that the item had to the recipient, the item's
  -- new status, custodian and location, with updated_at set to now if one of these changes, and one
  -- audit row.
  pub transfer-Moved :
      (p : Transfer) (r : ℕ × Store)
      → transfer q p s ≡ ok r
      → (r.0 ≡ q.new_id) × Moved q (to_procedure p) s r.1
  unfolding transfer sp_transfer_evidence
  transfer-Moved p r h = elim (Option-cases (evidence_by_id s p.evidence_id)) [
    | inl e ↦ absurd (ground arith)
    | inr f ↦ transfer_item-Moved q (to_procedure p) s f.0 r f.1 (ground (arith, f.1))
  ]

  -- With a time given, it is not in the future and not before the item's last entry.
  pub transfer-time :
      (p : Transfer) (r : ℕ × Store) (t : ℕ)
      → transfer q p s ≡ ok r
      → p.occurred_at ≡ some t
      → (t ≤ q.now) × (before t (latest_entry_time p.evidence_id s.custody) ≡ false)
  unfolding transfer
  transfer-time p r t h e = (ground arith, ground arith)

  pub correct_entry-Corrected :
      (p : Correction) (r : ℕ × Store)
      → correct_entry q p s ≡ ok r
      → Corrected q (correction_to_procedure p) s r.1
  unfolding correct_entry sp_record_custody_correction
  correct_entry-Corrected p r h =
      elim (Option-cases (find (λ x. x.custody_id == p.corrects_custody_id) s.custody)) [
        | inl e ↦ absurd (ground arith)
        | inr f ↦
            correct_original-Corrected q (correction_to_procedure p) s f.0 r f.1
              (ground (arith, f.1))
      ]

  pub record_export-Exported :
      (uid : ℕ) (why details : List Piece) (eid : ℕ) (s' : Store)
      → record_export q uid why details eid s ≡ ok s'
      → Exported q uid why eid s s'
  unfolding record_export
  record_export-Exported uid why details eid s' h = elim (Option-cases (evidence_by_id s eid)) [
    | inl e ↦ absurd (ground arith)
    | inr f ↦ export_item-Exported q uid why details eid s s' f.0 f.1 (ground (arith, f.1))
  ]
