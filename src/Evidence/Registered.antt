-- ===== src/Evidence/Registered.antt =====
-- What an accepted registration or edit has checked and written.
use mathlib.Core.Path.{subst₂}
use forge_x.Shared.{
  ltb, ◌==◌, if◌then◌else◌, is_some, ==_iff, Option-cases, append_nothing, exists, update_where, ℕ,
  ◌≤◌, ◌≡◌, inl, inr, Bool, true, false, not, ◌&&◌, ◌||◌, none, some, List, [], ◌∷◌, ◌++◌, arith,
}
use forge_x.Shared.Text.{Text, codes, lower, text_eq, or_null?}
use forge_x.Shared.Outcome.{Outcome, ok, ◌>>=◌, bind-ok, ◌>>◌, require, or_raise, require-then}
use forge_x.Access.{administrator, custodian, is_closed, Actor, can_edit_evidence}
use forge_x.Store.{
  in_transit, collected, CaseRecord, Evidence, CustodyEntry, HashRow, Counter, Store, Request,
}
use forge_x.Store.Roles.{is_active_user, fn_has_role, is_assigned, case_by_id, evidence_by_id}
use forge_x.Store.Audit.{record_audit, done}
use forge_x.Store.Sequence.{evidence_seq, next_reference, business_code}
use forge_x.Custody.Procedures.{insert_custody, update_item}
use forge_x.Integrity.{is_manual, insert_hash}
use forge_x.Evidence.{
  EvidenceError, not_your_case, collected_in_future, malformed_hash, say_where_copied, case_missing,
  case_is_closed, may_not_register, collector_inactive, refused_details, evidence_not_found,
  registrable_cases, NewIds, Registration, new_item, first_entry, first_hash, item_valid,
  or_refused, insert_first_hash, hash_message, insert_registered, sp_register_evidence,
  hash_checked, to_sp, register_evidence, ItemEdit, edit_item, item_view, edit_found,
  update_evidence,
}

-- The hash rows that a registration adds
abbrev pub added_hashes : NewIds → Registration → List HashRow
added_hashes ids p = elim p.hash_value [
  | none ↦ []
  | some value ↦
      record {
        hash_id = ids.hash_id;
        evidence_id = ids.evidence_id;
        hash_value = lower value;
        source = p.hash_source;
        source_notes = p.hash_notes;
        recorded_by = p.registered_by;
        supersedes_hash_id = none;
        correction_reason = none;
      }
      ∷ []
]

-- The inserts of a registration: the item, its first custody entry and the hash if one is given
pub record Inserted (q : Request) (ids : NewIds) (code : Text) (p : Registration) (s s' : Store)
    : Type 0 where
  pub item_added :
      s'.evidence
      ≡ s.evidence
        ++ record {
          evidence_id = ids.evidence_id;
          evidence_code = code;
          case_id = p.case_id;
          evidence_type_id = p.evidence_type_id;
          description = p.description;
          source_details = p.source_details;
          size_bytes = p.size_bytes;
          collected_at = p.collected_at;
          collected_by = p.collected_by;
          collection_site = p.collection_site;
          collection_condition = p.collection_condition;
          current_status = in_transit;
          current_custodian_id = p.collected_by;
          current_location_id = none;
          updated_at = q.now;
        }
          ∷ []
  pub entry_added :
      s'.custody
      ≡ s.custody
        ++ record {
          custody_id = ids.custody_id;
          evidence_id = ids.evidence_id;
          action = collected;
          from_custodian_id = none;
          to_custodian_id = p.collected_by;
          location_id = none;
          location_note = some p.collection_site;
          evidence_condition = p.collection_condition;
          seal_number = p.seal_number;
          reason = codes "Collected at site";
          occurred_at = p.collected_at;
          recorded_by = p.registered_by;
          recorded_at = q.now;
          corrects_custody_id = none;
        }
          ∷ []
  pub hash_added : s'.hashes ≡ s.hashes ++ added_hashes ids p
  pub users_kept : s'.users ≡ s.users
  pub cases_kept : s'.cases ≡ s.cases
  pub is_unused : exists (λ x. text_eq x.evidence_code code) s.evidence ≡ false
  pub in_order : p.collected_at ≤ q.now

pub record HashInserted (ids : NewIds) (p : Registration) (s s' : Store) : Type 0 where
  pub evidence_same : s'.evidence ≡ s.evidence
  pub custody_same : s'.custody ≡ s.custody
  pub users_same : s'.users ≡ s.users
  pub cases_same : s'.cases ≡ s.cases
  pub hashes_grown : s'.hashes ≡ s.hashes ++ added_hashes ids p

insert_first_hash-Inserted :
    (ids : NewIds) (p : Registration) (s : Store) {s' : Store}
    → insert_first_hash ids p s ≡ ok s'
    → HashInserted ids p s s'
unfolding insert_first_hash insert_hash first_hash
insert_first_hash-Inserted ids p s {s'} h = elim (Option-cases p.hash_value) [
  | inl e ↦
      let same : s ≡ s' = ground (arith, e) in
      record {
        evidence_same = ground (arith, same);
        custody_same = ground (arith, same);
        users_same = ground (arith, same);
        cases_same = ground (arith, same);
        hashes_grown = ground (arith, same, e, append_nothing s.hashes);
      }
  | inr v ↦ record {
    evidence_same = ground (arith, v.1);
    custody_same = ground (arith, v.1);
    users_same = ground (arith, v.1);
    cases_same = ground (arith, v.1);
    hashes_grown = ground (arith, v.1);
  }
]

insert_custody-Appended :
    (s : Store) (e : CustodyEntry) {s' : Store}
    → or_refused (insert_custody s e) ≡ ok s'
    → record s { custody = s.custody ++ e ∷ [] } ≡ s'
unfolding insert_custody
insert_custody-Appended s e h = ground arith

insert_registered-Inserted :
    (q : Request) (types : List ℕ) (ids : NewIds) (code : Text) (p : Registration) (s s' : Store)
    → insert_registered q types ids code p s ≡ ok s'
    → Inserted q ids code p s s'
unfolding insert_registered item_valid record_audit new_item first_entry
insert_registered-Inserted q types ids code p s s' h =
    let s1 : Store = record s { evidence = s.evidence ++ new_item q ids code p ∷ [] } in
    let following : Store → Outcome EvidenceError Store = λ s3. ok (
      record_audit q
        (done p.registered_by "evidence.register" "Evidence" code (hash_message p.hash_value ∷ []))
        s3) in
    let b =
      require-then (item_valid q types s (new_item q ids code p)) refused_details
        (or_refused (insert_custody s1 (first_entry q ids p)) >>= λ s2.
          insert_first_hash ids p s2 >>= following)
        h in
    let c =
      bind-ok (or_refused (insert_custody s1 (first_entry q ids p)))
        (λ s2. insert_first_hash ids p s2 >>= following) b.1 in
    let d = bind-ok (insert_first_hash ids p c.0) following c.2 in
    let i = insert_first_hash-Inserted ids p c.0 d.1 in
    let e = insert_custody-Appended s1 (first_entry q ids p) c.1 in
    record {
      item_added = ground (arith, i.evidence_same, e, d.2);
      entry_added = ground (arith, i.custody_same, e, d.2);
      hash_added = ground (arith, i.hashes_grown, e, d.2);
      users_kept = ground (arith, i.users_same, e, d.2);
      cases_kept = ground (arith, i.cases_same, e, d.2);
      is_unused = ground (arith, b.0);
      in_order = ground (arith, b.0);
    }

-- An accepted registration
pub record Registered (q : Request) (ids : NewIds) (user : Actor) (p : Registration) (code : Text)
    (s s' : Store) : Type 0 where
  pub case_of : CaseRecord
  pub found : case_by_id s p.case_id ≡ some case_of
  pub case_open : is_closed case_of.status ≡ false
  pub permitted :
      (fn_has_role s user.user_id administrator
        || fn_has_role s user.user_id custodian
        || is_assigned s user.user_id p.case_id)
      ≡ true
  pub offered : exists (λ c. c.case_id == p.case_id) (registrable_cases user s) ≡ true
  pub collector_active : is_active_user s p.collected_by ≡ true
  pub hash_well_formed : hash_checked p.hash_value ≡ true
  pub inserted : Inserted q ids code (to_sp user p) s s'

Inserted-counters :
    (q : Request) (ids : NewIds) (code : Text) (p : Registration) (s s' : Store) (cs : List Counter)
    → Inserted q ids code p (record s { counters = cs }) s'
    → Inserted q ids code p s s'
Inserted-counters q ids code p s s' cs i = record {
  item_added = i.item_added;
  entry_added = i.entry_added;
  hash_added = i.hash_added;
  users_kept = i.users_kept;
  cases_kept = i.cases_kept;
  is_unused = i.is_unused;
  in_order = i.in_order;
}

-- The same checks and inserts, of the procedure alone
pub record Accepted (q : Request) (ids : NewIds) (p : Registration) (code : Text) (s s' : Store)
    : Type 0 where
  pub case_of : CaseRecord
  pub found : case_by_id s p.case_id ≡ some case_of
  pub case_open : is_closed case_of.status ≡ false
  pub permitted :
      (fn_has_role s p.registered_by administrator
        || fn_has_role s p.registered_by custodian
        || is_assigned s p.registered_by p.case_id)
      ≡ true
  pub collector_active : is_active_user s p.collected_by ≡ true
  pub inserted : Inserted q ids code p s s'

sp_register_evidence-Accepted :
    (q : Request) (types : List ℕ) (year : ℕ) (ids : NewIds) (p : Registration) (s : Store)
    {code : Text} {s' : Store}
    → sp_register_evidence q types year ids p s ≡ ok (code, s')
    → Accepted q ids p code s s'
unfolding sp_register_evidence
sp_register_evidence-Accepted q types year ids p s {code} {s'} h =
    let number = next_reference evidence_seq year s.counters in
    let made = business_code "FX-EV-" year 5 number.0 in
    let s0 : Store = record s { counters = number.1 } in
    let written : Outcome EvidenceError (Text × Store) =
      insert_registered q types ids made p s0 >>= λ s1. ok (made, s1) in
    let rest3 : Outcome EvidenceError (Text × Store) =
      require (is_active_user s p.collected_by) collector_inactive >> written in
    let may =
      fn_has_role s p.registered_by administrator
      || fn_has_role s p.registered_by custodian
      || is_assigned s p.registered_by p.case_id in
    let rest2 : Outcome EvidenceError (Text × Store) = require may may_not_register >> rest3 in
    let rest1 : CaseRecord → Outcome EvidenceError (Text × Store) =
      λ c. require (not (is_closed c.status)) case_is_closed >> rest2 in
    let a = bind-ok (or_raise (case_by_id s p.case_id) case_missing) rest1 h in
    let b = require-then (not (is_closed a.0.status)) case_is_closed rest2 a.2 in
    let c = require-then may may_not_register rest3 b.1 in
    let d = require-then (is_active_user s p.collected_by) collector_inactive written c.1 in
    let w = bind-ok (insert_registered q types ids made p s0) (λ s1. ok (made, s1)) d.1 in
    let same : made ≡ code = ground (arith, w.2) in
    let end : w.0 ≡ s' = ground (arith, w.2) in
    record {
      case_of = a.0;
      found = ground (arith, a.1);
      case_open = ground (arith, b.0);
      permitted = c.0;
      collector_active = d.0;
      inserted =
          subst₂ (λ n t. Inserted q ids n p s t) same end
            (Inserted-counters q ids made p s w.0 number.1
              (insert_registered-Inserted q types ids made p s0 w.0 w.1));
    }

-- An accepted registration is of an open case that the form offers the user, and on which the
-- database lets the user register, by an active collector, with a well-formed hash if any; it
-- appends the item with the given details, in transit with its collector, its first custody entry
-- by the collector and, if a hash is given, that hash in lower case as the item's first.
pub register_evidence-Registered :
    (q : Request) (types : List ℕ) (year : ℕ) (ids : NewIds) (user : Actor) (p : Registration)
    (s : Store) {code : Text} {s' : Store}
    → register_evidence q types year ids user p s ≡ ok (code, s')
    → Registered q ids user p code s s'
unfolding register_evidence to_sp
register_evidence-Registered q types year ids user p s h =
    let rest3 = sp_register_evidence q types year ids (to_sp user p) s in
    let named =
      not (
        is_some p.hash_value && is_manual p.hash_source && not (is_some (or_null? p.hash_notes))) in
    let rest2 = require named say_where_copied >> rest3 in
    let rest1 = require (hash_checked p.hash_value) malformed_hash >> rest2 in
    let rest0 = require (not (ltb q.now p.collected_at)) collected_in_future >> rest1 in
    let a =
      require-then (exists (λ c. c.case_id == p.case_id) (registrable_cases user s)) not_your_case
        rest0 h in
    let b = require-then (not (ltb q.now p.collected_at)) collected_in_future rest1 a.1 in
    let c = require-then (hash_checked p.hash_value) malformed_hash rest2 b.1 in
    let d = require-then named say_where_copied rest3 c.1 in
    let i = sp_register_evidence-Accepted q types year ids (to_sp user p) s d.1 in
    record {
      case_of = i.case_of;
      found = i.found;
      case_open = i.case_open;
      permitted = i.permitted;
      offered = a.0;
      collector_active = i.collector_active;
      hash_well_formed = c.0;
      inserted = i.inserted;
    }

-- An accepted edit: of an item of an open case, in the version that the user saw, by staff or the
-- case's lead. Its details are set if they differ; its collection, status, custodian, location and
-- code stay, and so do the custody log and the hashes.
pub record Edited (q : Request) (user : Actor) (eid : ℕ) (p : ItemEdit) (changed : Bool)
    (s s' : Store) : Type 0 where
  pub item_of : Evidence
  pub found : evidence_by_id s eid ≡ some item_of
  pub same_version : item_of.updated_at ≡ p.expected_version
  pub permitted :
      (case_of : CaseRecord) × (case_by_id s item_of.case_id ≡ some case_of)
      × (is_closed case_of.status ≡ false)
      × (can_edit_evidence user (item_view s item_of case_of) ≡ true)
  pub rows : s'.evidence ≡ (
      if changed
      then update_where (λ e. e.evidence_id == item_of.evidence_id) (edit_item q p) s.evidence
      else s.evidence)
  pub log_kept : s'.custody ≡ s.custody
  pub hashes_kept : s'.hashes ≡ s.hashes

edit_found-rows :
    (q : Request) (user : Actor) (p : ItemEdit) (s : Store) (i : Evidence) (c : CaseRecord)
    {changed : Bool} {s' : Store}
    → edit_found q user p s i c ≡ ok (changed, s')
    → (i.updated_at ≡ p.expected_version)
      × (is_closed c.status ≡ false)
      × (can_edit_evidence user (item_view s i c) ≡ true)
      × (s'.evidence ≡ (
          if changed
          then update_where (λ e. e.evidence_id == i.evidence_id) (edit_item q p) s.evidence
          else s.evidence))
      × (s'.custody ≡ s.custody)
      × (s'.hashes ≡ s.hashes)
unfolding edit_found can_edit_evidence item_view update_item record_audit
edit_found-rows q user p s i c h = ground (arith, ==_iff i.updated_at p.expected_version)

pub update_evidence-Edited :
    (q : Request) (user : Actor) (eid : ℕ) (p : ItemEdit) (s : Store) {changed : Bool} {s' : Store}
    → update_evidence q user eid p s ≡ ok (changed, s')
    → Edited q user eid p changed s s'
unfolding update_evidence
update_evidence-Edited q user eid p s h =
    let rest : Evidence → Outcome EvidenceError (Bool × Store) =
      λ i. or_raise (case_by_id s i.case_id) evidence_not_found >>= edit_found q user p s i in
    let a = bind-ok (or_raise (evidence_by_id s eid) evidence_not_found) rest h in
    let b =
      bind-ok (or_raise (case_by_id s a.0.case_id) evidence_not_found) (edit_found q user p s a.0)
        a.2 in
    let r = edit_found-rows q user p s a.0 b.0 b.2 in
    record {
      item_of = a.0;
      found = ground (arith, a.1);
      same_version = r.0;
      permitted = (b.0, ground (arith, b.1), r.1, r.2);
      rows = r.3;
      log_kept = r.4;
      hashes_kept = r.5;
    }
