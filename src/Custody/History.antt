-- ===== src/Custody/History.antt =====
-- Any sequence of accepted transfers, corrections and downloads.
use mathlib.Core.Option
use mathlib.Core.Path.{subst}
use mathlib.Core.List.{append-nil}
use forge_x.Shared.{
  ◌==◌, if◌then◌else◌, ==_iff, Bool-cases, append_assoc, find, update_where, ℕ, ◌≡◌, refl, sym, ap,
  ◌∙◌, inl, inr, Bool, true, false, Option, none, some, List, [], ◌++◌, arith,
}
use forge_x.Shared.Text.{Piece}
use forge_x.Shared.Outcome.{ok}
use forge_x.Shared.Tables.{find-update_where}
use forge_x.Store.{ItemStatus, archived_item, Action, Evidence, CustodyEntry, Store, Request}
use forge_x.Store.Roles.{evidence_by_id}
use forge_x.Custody.Procedures.{
  sql_allowed, sql_new_status, Transfer, move_item, latest_entry, Correction, place_item, is_entry,
}
use forge_x.Custody.Latest.{IsNext}
use forge_x.Custody.Changes.{
  to_procedure, transfer, correction_to_procedure, correct_entry, record_export,
}
use forge_x.Custody.Inversion.{
  Moved, transfer-Moved, correct_entry-Corrected, record_export-Exported,
}
use forge_x.Custody.InStep.{InStep, transfer-InStep, correct_entry-InStep, record_export-InStep}

-- One accepted change, at the id and the time that MySQL gives it.
pub data CustodyStep (s : Store) (s' : Store) : Type 0 where
  transfers :
      (q : Request) (p : Transfer) (id : ℕ)
      → IsNext q s
      → transfer q p s ≡ ok (id, s')
      → CustodyStep s s'
  corrects :
      (q : Request) (p : Correction) (id : ℕ)
      → IsNext q s
      → correct_entry q p s ≡ ok (id, s')
      → CustodyStep s s'
  exports :
      (q : Request) (uid : ℕ) (why details : List Piece) (eid : ℕ)
      → IsNext q s
      → record_export q uid why details eid s ≡ ok s'
      → CustodyStep s s'

pub data CustodyRun (s : Store) : Store → Type 0 where
  start : CustodyRun s s
  next : {t u : Store} → CustodyRun s t → CustodyStep t u → CustodyRun s u

CustodyStep-InStep : {s s' : Store} → InStep s → CustodyStep s s' → InStep s'
CustodyStep-InStep v (transfers q p id n h) = transfer-InStep q p _ _ id v n h
CustodyStep-InStep v (corrects q p id n h) = correct_entry-InStep q p _ _ id v n h
CustodyStep-InStep v (exports q uid why details eid n h) =
    record_export-InStep q uid why details eid _ _ v n h

-- After any sequence of accepted transfers, corrections and downloads, the current custodian and
-- location of every item are those of its latest custody entry, if they were before.
pub CustodyRun-InStep : (s s' : Store) → InStep s → CustodyRun s s' → InStep s'
CustodyRun-InStep s s' v start = v
CustodyRun-InStep s s' v (next r st) = CustodyStep-InStep (CustodyRun-InStep s _ v r) st

abbrev Extends : List CustodyEntry → List CustodyEntry → Type 0
Extends xs ys = (new : List CustodyEntry) × (ys ≡ xs ++ new)

CustodyStep-Extends : {s s' : Store} → CustodyStep s s' → Extends s.custody s'.custody
CustodyStep-Extends {s} {s'} (transfers q p id n h) =
    (_, (transfer-Moved q s p (id, s') h).1.appended)
CustodyStep-Extends {s} {s'} (corrects q p id n h) =
    (_, (correct_entry-Corrected q s p (id, s') h).appended)
CustodyStep-Extends {s} {s'} (exports q uid why details eid n h) =
    (_, (record_export-Exported q s uid why details eid s' h).appended)

-- The custody log only grows at its end: whatever sequence of changes is accepted, the entries
-- before stay as they were and where they were.
pub CustodyRun-Extends :
    (s s' : Store) → CustodyRun s s' → (new : List CustodyEntry) × (s'.custody ≡ s.custody ++ new)
CustodyRun-Extends s s' start = ([], sym (append-nil s.custody))
CustodyRun-Extends s s' (next r st) =
    let (xs, e) = CustodyRun-Extends s _ r in
    let (ys, f) = CustodyStep-Extends st in
    (xs ++ ys, f ∙ (ap (λ zs. zs ++ ys) e ∙ append_assoc s.custody xs ys))

unfoldable pub status_of : Store → ℕ → Option ItemStatus
status_of s eid = Option.map (λ (e : Evidence). e.current_status) (evidence_by_id s eid)

-- The statuses an item may have after one accepted change: the same, or where an action leads that
-- the table allows.
pub data NextStatus (o : Option ItemStatus) (o' : Option ItemStatus) : Type 0 where
  same : o' ≡ o → NextStatus o o'
  along :
      (action : Action) (status : ItemStatus)
      → o ≡ some status
      → sql_allowed action status ≡ true
      → o' ≡ some (sql_new_status action status)
      → NextStatus o o'

update_item-status :
    (f : Evidence → Evidence)
    → ((i : Evidence) → (f i).evidence_id ≡ i.evidence_id)
    → (s s' : Store) (k eid : ℕ) → s'.evidence ≡ update_where (λ e. e.evidence_id == k) f s.evidence
    → status_of s' eid ≡ (
        if k == eid
        then Option.map (λ (e : Evidence). (f e).current_status) (evidence_by_id s eid)
        else status_of s eid)
unfolding status_of evidence_by_id
update_item-status f keeps s s' k eid es =
    ap
      (λ (l : List Evidence).
        Option.map (λ (e : Evidence). e.current_status) (find (λ e. e.evidence_id == eid) l))
      es
    ∙ after (k == eid) (find (λ e. e.evidence_id == eid) s.evidence)
        (find-update_where (λ (e : Evidence). e.evidence_id) f keeps k eid s.evidence)
  where
    after :
        (b : Bool) (o : Option Evidence) {o' : Option Evidence}
        → o' ≡ (if b then Option.map f o else o)
        → Option.map (λ (e : Evidence). e.current_status) o' ≡ (
            if b
            then Option.map (λ (e : Evidence). (f e).current_status) o
            else Option.map (λ (e : Evidence). e.current_status) o)
    after b o e = rw e (cases b o)
      where
        cases :
            (b : Bool) (o : Option Evidence)
            → Option.map (λ (e : Evidence). e.current_status) (if b then Option.map f o else o) ≡ (
                if b
                then Option.map (λ (e : Evidence). (f e).current_status) o
                else Option.map (λ (e : Evidence). e.current_status) o)
        cases true none = refl
        cases true (some i) = refl
        cases false o = refl

Moved-NextStatus :
    (q : Request) (p : Transfer) (s s' : Store) (eid : ℕ)
    → Moved q p s s'
    → NextStatus (status_of s eid) (status_of s' eid)
unfolding status_of move_item
Moved-NextStatus q p s s' eid m =
    let e = update_item-status (move_item q p) (λ i. refl) s s' p.evidence_id eid m.moved in
    elim (Bool-cases (p.evidence_id == eid)) [
      | inl hit ↦
          let f : evidence_by_id s eid ≡ some m.item =
            subst (λ (k : ℕ). evidence_by_id s k ≡ some m.item) ((==_iff p.evidence_id eid).0 hit)
              m.found in
          along p.action m.item.current_status (rw f) m.allowed (e ∙ rw (hit, f))
      | inr miss ↦ same (e ∙ rw miss)
    ]

kept_status :
    (q : Request) (s s' : Store) (p : Correction) (k eid : ℕ)
    → s'.evidence ≡ update_where (λ e. e.evidence_id == k) (place_item q p) s.evidence
    → status_of s' eid ≡ status_of s eid
unfolding status_of place_item
kept_status q s s' p k eid es =
    update_item-status (place_item q p) (λ i. refl) s s' k eid es ∙ either (k == eid)
  where
    either : (b : Bool) → (if b then status_of s eid else status_of s eid) ≡ status_of s eid
    either true = refl
    either false = refl

evidence_kept :
    (s s' : Store) (eid : ℕ) → s'.evidence ≡ s.evidence → status_of s' eid ≡ status_of s eid
unfolding status_of evidence_by_id
evidence_kept s s' eid e =
    ap
      (λ (l : List Evidence).
        Option.map (λ (i : Evidence). i.current_status) (find (λ i. i.evidence_id == eid) l))
      e

-- One accepted change moves an item's status only along an action that the table allows from it;
-- corrections and downloads leave it as it is.
pub CustodyStep-NextStatus :
    (s s' : Store) (eid : ℕ) → CustodyStep s s' → NextStatus (status_of s eid) (status_of s' eid)
CustodyStep-NextStatus s s' eid (transfers q p id n h) =
    Moved-NextStatus q (to_procedure p) s s' eid (transfer-Moved q s p (id, s') h).1
CustodyStep-NextStatus s s' eid (corrects q p id n h) =
    let c = correct_entry-Corrected q s p (id, s') h in
    elim (Bool-cases (is_entry (latest_entry c.original.evidence_id s'.custody) q.new_id)) [
      | inl now ↦ same (
          kept_status q s s' (correction_to_procedure p) c.original.evidence_id eid
            (c.followed ∙ rw now))
      | inr old ↦ same (evidence_kept s s' eid (c.followed ∙ rw old))
    ]
CustodyStep-NextStatus s s' eid (exports q uid why details e n h) =
    same (evidence_kept s s' eid (record_export-Exported q s uid why details e s' h).unmoved)

NextStatus-archived :
    {o o' : Option ItemStatus} → NextStatus o o' → o ≡ some archived_item → o' ≡ some archived_item
unfolding sql_allowed
NextStatus-archived (same e) h = e ∙ h
NextStatus-archived (along action status a b c) h = ground arith

-- Archived is final: no sequence of accepted changes takes an archived item anywhere else.
pub archived_is_final :
    (s s' : Store) (eid : ℕ)
    → CustodyRun s s'
    → status_of s eid ≡ some archived_item
    → status_of s' eid ≡ some archived_item
archived_is_final s s' eid start h = h
archived_is_final s s' eid (next r st) h =
    NextStatus-archived (CustodyStep-NextStatus _ s' eid st) (archived_is_final s _ eid r h)
