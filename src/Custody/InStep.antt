-- ===== src/Custody/InStep.antt =====
-- The current custodian and location of every item are those of its latest custody entry, and stay
-- so under transfers, corrections and downloads.
use mathlib.Core.Option
use mathlib.Core.Path.{subst, subst₂}
use forge_x.Shared.{
  ◌==◌, ==_iff, Bool-cases, Option-cases, find, update_where, ℕ, ◌≡◌, refl, sym, ◌∙◌, inl, inr,
  Option, none, some, List, [], ◌∷◌, ◌++◌,
}
use forge_x.Shared.Text.{Piece}
use forge_x.Shared.Outcome.{ok}
use forge_x.Shared.Tables.{find_key, find-update_where}
use forge_x.Store.{Evidence, CustodyEntry, Store, Request}
use forge_x.Store.Roles.{evidence_by_id}
use forge_x.Custody.Procedures.{
  Transfer, transfer_entry, move_item, latest_entry, Correction, correction_entry, place_item,
  is_entry,
}
use forge_x.Custody.Latest.{
  latest_entry-append, IsFresh, OlderThan, latest_entry-append_last, latest_entry-append_fresh,
  IsNext, now-OlderThan, accepted-OlderThan,
}
use forge_x.Custody.Changes.{
  to_procedure, transfer, correction_to_procedure, correct_entry, export_entry, record_export,
}
use forge_x.Custody.Inversion.{
  Moved, Corrected, transfer-Moved, transfer-time, correct_entry-Corrected, record_export-Exported,
}

abbrev pub Agrees : Option CustodyEntry → Evidence → Type 0
Agrees none item = ⊥
Agrees (some e) item =
    (e.to_custodian_id ≡ item.current_custodian_id) × (e.location_id ≡ item.current_location_id)

-- Every item has a custody entry, and its latest says where the item is.
pub record Synced (items : List Evidence) (entries : List CustodyEntry) : Type 0 where
  pub agrees :
      (eid : ℕ) (item : Evidence)
      → find (λ e. e.evidence_id == eid) items ≡ some item
      → Agrees (latest_entry eid entries) item

abbrev pub InStep : Store → Type 0
InStep s = Synced s.evidence s.custody

module _ (items : List Evidence) (xs : List CustodyEntry) (e : CustodyEntry)
    (v : Synced items xs) where
  moved :
      (f : Evidence → Evidence)
      → ((i : Evidence) → Agrees (some e) (f i))
      → (o : Option Evidence) (item : Evidence) → Option.map f o ≡ some item
      → Agrees (some e) item
  moved f says none item h = cc
  moved f says (some i) item h = let p : f i ≡ item = cc in subst (Agrees (some e)) p (says i)

  -- Appending an entry and moving its item as it says keeps the two in step.
  pub append-Synced :
      (f : Evidence → Evidence)
      → ((i : Evidence) → (f i).evidence_id ≡ i.evidence_id)
      → ((i : Evidence) → Agrees (some e) (f i))
      → latest_entry e.evidence_id (xs ++ e ∷ []) ≡ some e
      → Synced (update_where (λ i. i.evidence_id == e.evidence_id) f items) (xs ++ e ∷ [])
  append-Synced f keeps says latest = record {
    agrees = λ eid item h.
        let h' = rw (find-update_where (λ i. i.evidence_id) f keeps e.evidence_id eid items) at h in
        elim (Bool-cases (e.evidence_id == eid)) [
          | inl same ↦
              rw (← (==_iff e.evidence_id eid).0 same, latest)
                (moved f says (find (λ i. i.evidence_id == eid) items) item (rw same at h'))
          | inr other ↦
              rw (latest_entry-append eid xs e, other) (v.agrees eid item (rw other at h'))
        ];
  }

  -- Appending an entry that says where its item already is, or is not its latest, does so too.
  pub append-Synced_still :
      ((item : Evidence)
        → find (λ i. i.evidence_id == e.evidence_id) items ≡ some item
        → Agrees (latest_entry e.evidence_id (xs ++ e ∷ [])) item)
      → Synced items (xs ++ e ∷ [])
  append-Synced_still says = record {
    agrees = λ eid item h. elim (Bool-cases (e.evidence_id == eid)) [
      | inl same ↦
          subst (λ (k : ℕ). Agrees (latest_entry k (xs ++ e ∷ [])) item)
            ((==_iff e.evidence_id eid).0 same)
            (says item (rw ((==_iff e.evidence_id eid).0 same) h))
      | inr other ↦ rw (latest_entry-append eid xs e, other) (v.agrees eid item h)
    ];
  }

transfer_entry-OlderThan :
    (q : Request) (p : Transfer) (s : Store) (item : Evidence) (r : ℕ × Store)
    → IsNext q s
    → transfer q p s ≡ ok r
    → OlderThan (transfer_entry q (to_procedure p) item) (latest_entry p.evidence_id s.custody)
unfolding transfer_entry to_procedure
transfer_entry-OlderThan q p s item r n h = elim (Option-cases p.occurred_at) [
  | inl e ↦ now-OlderThan q s (transfer_entry q (to_procedure p) item) n refl (rw e)
  | inr t ↦
      accepted-OlderThan q s (transfer_entry q (to_procedure p) item) n refl
        (rw (t.1) (transfer-time q s p r t.0 h t.1).1)
]

Moved-InStep :
    (q : Request) (p : Transfer) (s s' : Store) (m : Moved q p s s')
    → OlderThan (transfer_entry q p m.item) (latest_entry p.evidence_id s.custody)
    → InStep s
    → InStep s'
unfolding transfer_entry move_item
Moved-InStep q p s s' m older v = subst₂ Synced (sym m.moved) (sym m.appended) (
    append-Synced s.evidence s.custody (transfer_entry q p m.item) v (move_item q p) (λ i. refl)
      (λ i. (refl, refl)) (latest_entry-append_last s.custody (transfer_entry q p m.item) older))

-- A transfer that the service accepts keeps every item in step with its custody log.
pub transfer-InStep :
    (q : Request) (p : Transfer) (s s' : Store) (id : ℕ)
    → InStep s
    → IsNext q s
    → transfer q p s ≡ ok (id, s')
    → InStep s'
unfolding to_procedure
transfer-InStep q p s s' id v n h =
    let m = (transfer-Moved q s p (id, s') h).1 in
    Moved-InStep q (to_procedure p) s s' m (transfer_entry-OlderThan q p s m.item (id, s') n h) v

Corrected-InStep :
    (q : Request) (p : Correction) (s s' : Store) (c : Corrected q p s s')
    → IsFresh (correction_entry q p c.original) s.custody
    → InStep s
    → InStep s'
unfolding correction_entry place_item
Corrected-InStep q p s s' c fresh v =
    let e = correction_entry q p c.original in
    let fact = latest_entry-append_fresh s.custody e fresh in
    elim (Bool-cases (is_entry (latest_entry e.evidence_id (s.custody ++ e ∷ [])) q.new_id)) [
      | inl now ↦ subst₂ Synced (sym (c.followed ∙ rw (c.appended, now))) (sym c.appended) (
          append-Synced s.evidence s.custody e v (place_item q p) (λ i. refl) (λ i. (refl, refl))
            (fact ∙ rw now))
      | inr old ↦ subst₂ Synced (sym (c.followed ∙ rw (c.appended, old))) (sym c.appended) (
          append-Synced_still s.evidence s.custody e v
            (λ item f. rw (fact, old) (v.agrees e.evidence_id item f)))
    ]

-- So does a correction, whichever entry it corrects.
pub correct_entry-InStep :
    (q : Request) (p : Correction) (s s' : Store) (id : ℕ)
    → InStep s
    → IsNext q s
    → correct_entry q p s ≡ ok (id, s')
    → InStep s'
unfolding correction_entry
correct_entry-InStep q p s s' id v n h =
    let c = correct_entry-Corrected q s p (id, s') h in
    Corrected-InStep q (correction_to_procedure p) s s' c n.ids v

-- The item with the id of an item that was found is that item.
same_item :
    (s : Store) (eid : ℕ) (i j : Evidence)
    → evidence_by_id s eid ≡ some i
    → find (λ e. e.evidence_id == i.evidence_id) s.evidence ≡ some j
    → i ≡ j
unfolding evidence_by_id
same_item s eid i j f g =
    let k = find_key (λ (e : Evidence). e.evidence_id) eid s.evidence f in cc (rw k at g)

-- So does a download.
pub record_export-InStep :
    (q : Request) (uid : ℕ) (why details : List Piece) (eid : ℕ) (s s' : Store)
    → InStep s
    → IsNext q s
    → record_export q uid why details eid s ≡ ok s'
    → InStep s'
unfolding export_entry evidence_by_id
record_export-InStep q uid why details eid s s' v n h =
    let x = record_export-Exported q s uid why details eid s' h in
    let e = export_entry q uid why x.item in
    subst₂ Synced (sym x.unmoved) (sym x.appended) (
      append-Synced_still s.evidence s.custody e v (λ item f.
        rw (latest_entry-append_last s.custody e (now-OlderThan q s e n refl refl))
          (says x.item (same_item s eid x.item item x.found f))))
  where
    says : (i : Evidence) {j : Evidence} → i ≡ j → Agrees (some (export_entry q uid why i)) j
    says i e = rw (← e) (refl, refl)
