-- ===== src/Evidence/InStep.antt =====
-- Registrations and edits keep every item in step with its custody log.
use mathlib.Core.Option
use mathlib.Core.Path.{subst₂}
use forge_x.Shared.{
  ◌==◌, ==_iff, Bool-cases, find, exists, update_where, ℕ, ◌≡◌, refl, sym, ◌⊎◌, inl, inr, Bool,
  true, false, Option, none, some, List, [], ◌∷◌, ◌++◌, arith,
}
use forge_x.Shared.Text.{Text}
use forge_x.Shared.Tables.{find-update_where}
use forge_x.Shared.Outcome.{ok}
use forge_x.Access.{Actor}
use forge_x.Store.{Evidence, CustodyEntry, Store, Request}
use forge_x.Custody.Procedures.{latest_entry}
use forge_x.Custody.Latest.{latest_entry-append}
use forge_x.Custody.InStep.{Agrees, Synced, InStep}
use forge_x.Evidence.{
  NewIds, Registration, new_item, first_entry, to_sp, register_evidence, ItemEdit, edit_item,
  update_evidence,
}
use forge_x.Evidence.Registered.{
  Registered, register_evidence-Registered, Edited, update_evidence-Edited,
}

find-append_one :
    (eid : ℕ) (items : List Evidence) (new item : Evidence)
    → find (λ e. e.evidence_id == eid) (items ++ new ∷ []) ≡ some item
    → (find (λ e. e.evidence_id == eid) items ≡ some item)
      ⊎ ((new ≡ item) × ((new.evidence_id == eid) ≡ true))
unfolding find
find-append_one eid [] new item h = ground arith
find-append_one eid (x ∷ xs) new item h = ground (arith, find-append_one eid xs new item)

find-exists :
    (eid k : ℕ) (items : List Evidence) (item : Evidence)
    → exists (λ e. e.evidence_id == k) items ≡ false
    → find (λ e. e.evidence_id == eid) items ≡ some item
    → (k == eid) ≡ false
unfolding find exists
find-exists eid k [] item n h = cc
find-exists eid k (x ∷ xs) item n h =
    ground (arith, find-exists eid k xs item, ==_iff k eid, ==_iff x.evidence_id k)

-- A new item whose first entry is appended with it
register-Synced :
    (items : List Evidence) (xs : List CustodyEntry) (new : Evidence) (e : CustodyEntry)
    → new.evidence_id ≡ e.evidence_id
    → exists (λ i. i.evidence_id == e.evidence_id) items ≡ false
    → latest_entry e.evidence_id xs ≡ none
    → Agrees (some e) new
    → Synced items xs
    → Synced (items ++ new ∷ []) (xs ++ e ∷ [])
register-Synced items xs new e same fresh silent says v = record {
  agrees = λ eid item h. elim (find-append_one eid items new item h) [
    | inl old ↦
        rw (latest_entry-append eid xs e, find-exists eid e.evidence_id items item fresh old)
          (v.agrees eid item old)
    | inr n ↦
        let here : (e.evidence_id == eid) ≡ true = ground (arith, n.1, same) in
        let latest : latest_entry eid (xs ++ e ∷ []) ≡ some e =
          ground (
            arith,
            latest_entry-append eid xs e,
            here,
            silent,
            (==_iff e.evidence_id eid).0 here,
          ) in
        rw (latest, ← n.0) says
  ];
}

Registered-InStep :
    (q : Request) (ids : NewIds) (user : Actor) (p : Registration) (code : Text) (s s' : Store)
    → Registered q ids user p code s s'
    → exists (λ i. i.evidence_id == ids.evidence_id) s.evidence ≡ false
    → latest_entry ids.evidence_id s.custody ≡ none
    → InStep s
    → InStep s'
unfolding new_item first_entry
Registered-InStep q ids user p code s s' r fresh silent v =
    subst₂ Synced (sym r.inserted.item_added) (sym r.inserted.entry_added) (
      register-Synced s.evidence s.custody (new_item q ids code (to_sp user p))
        (first_entry q ids (to_sp user p)) refl fresh silent (refl, refl) v)

edited-Agrees :
    (q : Request) (p : ItemEdit) (l : Option CustodyEntry) (o : Option Evidence) (item : Evidence)
    → ((i : Evidence) → o ≡ some i → Agrees l i)
    → Option.map (edit_item q p) o ≡ some item
    → Agrees l item
unfolding edit_item
edited-Agrees q p l none item v h = cc
edited-Agrees q p none (some i) item v h = v i refl
edited-Agrees q p (some e) (some i) item v h =
    let a = v i refl in (ground (arith, a.0), ground (arith, a.1))

edit-Synced :
    (q : Request) (p : ItemEdit) (eid : ℕ) (items : List Evidence) (xs : List CustodyEntry)
    → Synced items xs
    → Synced (update_where (λ e. e.evidence_id == eid) (edit_item q p) items) xs
unfolding edit_item
edit-Synced q p eid items xs v = record {
  agrees = λ k item h.
      let h' =
        rw (find-update_where (λ i. i.evidence_id) (edit_item q p) (λ i. refl) eid k items) at h in
      elim (Bool-cases (eid == k)) [
        | inl same ↦
            edited-Agrees q p (latest_entry k xs) (find (λ e. e.evidence_id == k) items) item
              (v.agrees k) (rw same at h')
        | inr other ↦ v.agrees k item (rw other at h')
      ];
}

Edited-InStep :
    (q : Request) (user : Actor) (eid : ℕ) (p : ItemEdit) (changed : Bool) (s s' : Store)
    → Edited q user eid p changed s s'
    → InStep s
    → InStep s'
Edited-InStep q user eid p true s s' e v =
    subst₂ Synced (sym e.rows) (sym e.log_kept)
      (edit-Synced q p e.item_of.evidence_id s.evidence s.custody v)
Edited-InStep q user eid p false s s' e v = subst₂ Synced (sym e.rows) (sym e.log_kept) v

-- One accepted call of app/evidence/services.py that writes; a registration gets an id of an item
-- that neither an item nor a custody entry has.
pub data EvidenceStep (q : Request) (s s' : Store) : Type 0 where
  registers :
      (types : List ℕ) (year : ℕ) (ids : NewIds) (user : Actor) (p : Registration) (code : Text)
      → exists (λ i. i.evidence_id == ids.evidence_id) s.evidence ≡ false
      → latest_entry ids.evidence_id s.custody ≡ none
      → register_evidence q types year ids user p s ≡ ok (code, s')
      → EvidenceStep q s s'
  edits :
      (user : Actor) (eid : ℕ) (p : ItemEdit) (changed : Bool)
      → update_evidence q user eid p s ≡ ok (changed, s')
      → EvidenceStep q s s'

-- If the custodian and location of every item are those of its latest custody entry, they still are
-- after an accepted registration, under an id that no item or entry has, or edit.
pub EvidenceStep-InStep : (q : Request) (s s' : Store) → InStep s → EvidenceStep q s s' → InStep s'
EvidenceStep-InStep q s s' v (registers types year ids user p code fresh silent h) =
    Registered-InStep q ids user p code s s'
      (register_evidence-Registered q types year ids user p s h) fresh silent v
EvidenceStep-InStep q s s' v (edits user eid p changed h) =
    Edited-InStep q user eid p changed s s' (update_evidence-Edited q user eid p s h) v
