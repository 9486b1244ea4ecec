-- ===== src/Locations/Inactive.antt =====
-- A location that is deactivated receives no item until it is activated again.
use forge_x.Shared.{
  ◌==◌, exists, update_where, ℕ, ◌<◌, ◌≡◌, refl, inl, inr, true, false, ◌&&◌, Option, none, some,
  List, [], ◌∷◌, arith,
}
use forge_x.Shared.Outcome.{ok, is_ok, Outcome-cases}
use forge_x.Store.{Location, Store, Request}
use forge_x.Store.Roles.{location_is_active}
use forge_x.Store.Audit.{record_audit}
use forge_x.Custody.Procedures.{Transfer, active_location}
use forge_x.Custody.Changes.{to_procedure, transfer}
use forge_x.Custody.Inversion.{transfer-Moved}
use forge_x.Locations.{get_location, update_row, set_location_active}

exists-update_where_none :
    (lid : ℕ) (ls : List Location)
    → exists
        (λ l. l.location_id == lid && l.is_active)
        (update_where (λ l. l.location_id == lid) (λ l. record l { is_active = false }) ls)
      ≡ false
unfolding exists update_where
exists-update_where_none lid [] = refl
exists-update_where_none lid (l ∷ ls) = ground (arith, exists-update_where_none lid ls)

set_location_active-off :
    (q : Request) (uid lid : ℕ) (s s' : Store)
    → set_location_active q uid lid false s ≡ ok s'
    → (location_is_active s' lid ≡ false) × (s'.evidence ≡ s.evidence) × (s'.custody ≡ s.custody)
unfolding set_location_active update_row location_is_active record_audit get_location
set_location_active-off q uid lid s s' h =
    let off = exists-update_where_none lid s.locations in
    (ground (arith, off), ground arith, ground arith)

located_off :
    (s : Store) (l : Option ℕ) (lid : ℕ)
    → l ≡ some lid
    → location_is_active s lid ≡ false
    → active_location s l ≡ true
    → ⊥
located_off s none lid h off on = cc
located_off s (some k) lid h off on = cc

-- Once a location with a positive id is deactivated, every transfer to it is refused, whoever asks,
-- and its deactivation has moved no item and touched no custody entry.
pub deactivated-refuses :
    (q q' : Request) (uid lid : ℕ) (s s' : Store) (p : Transfer)
    → set_location_active q uid lid false s ≡ ok s'
    → p.location_id ≡ some lid
    → 0 < lid
    → (is_ok (transfer q' p s') ≡ false) × (s'.evidence ≡ s.evidence) × (s'.custody ≡ s.custody)
unfolding to_procedure
deactivated-refuses q q' uid lid s s' p h there positive =
    let o = set_location_active-off q uid lid s s' h in
    elim (Outcome-cases (transfer q' p s')) [
      | inl e ↦ (rw (e.1) refl, o.1, o.2)
      | inr r ↦ absurd (
          located_off s' (to_procedure p).location_id lid (ground (arith, there)) o.0
            (transfer-Moved q' s' p r.0 r.1).1.located)
    ]
