-- ===== src/Locations.antt =====
-- app/locations/services.py: the storage locations. `same_name` is the collation of the unique key
-- uq_locations_name; every name is checked against it, also the one that a location already has.
pub mod Inactive
pub mod Tests
use forge_x.Shared.{
  ◌==◌, if◌then◌else◌, find, exists, update_where, ℕ, String, Bool, true, false, not, ◌&&◌, Option,
  none, some, List, [], ◌∷◌, ◌++◌,
}
use forge_x.Shared.Text.{Text, text_eq, opt_text_eq, or_null?, Piece, lit, val}
use forge_x.Shared.Outcome.{Outcome, ok, ◌>>=◌, ◌>>◌, require, or_raise}
use forge_x.Store.{
  success, LocationType, vault, evidence_room, examination_lab, imaging_bench, other_place,
  Location, Store, Request,
}
use forge_x.Store.Audit.{record_audit, done}

pub data LocationError : Type 0 where
  name_exists location_not_found already_so : LocationError

abbrev pub type_name_of : LocationType → String
type_name_of vault = "Vault"
type_name_of evidence_room = "Evidence Room"
type_name_of examination_lab = "Examination Lab"
type_name_of imaging_bench = "Imaging Bench"
type_name_of other_place = "Other"

unfoldable pub type_eq : LocationType → LocationType → Bool
type_eq vault vault = true
type_eq evidence_room evidence_room = true
type_eq examination_lab examination_lab = true
type_eq imaging_bench imaging_bench = true
type_eq other_place other_place = true
type_eq _ _ = false

-- `get_location`
unfoldable pub get_location : ℕ → Store → Option Location
get_location lid s = find (λ l. l.location_id == lid) s.locations

-- uq_locations_name, for the row with the given id
unfoldable pub name_is_free : (same_name : Text → Text → Bool) → ℕ → Text → Store → Bool
name_is_free same_name lid name s =
    not (exists (λ l. not (l.location_id == lid) && same_name l.location_name name) s.locations)

-- UPDATE storage_locations … WHERE location_id = lid
unfoldable pub update_row : ℕ → (Location → Location) → Store → Store
update_row lid f s = record s { locations = update_where (λ l. l.location_id == lid) f s.locations }

-- `create_location`
unfoldable pub create_location :
    (same_name : Text → Text → Bool)
    → Request
    → (uid : ℕ) → Text
    → LocationType
    → Option Text
    → Store
    → Outcome LocationError Store
unfolding name_is_free
create_location same_name q uid name type description s = do
  require (name_is_free same_name q.new_id name s) name_exists
  ok (
      record_audit q
        (done uid "location.create" "Storage location" name (lit (type_name_of type) ∷ []))
        (record s {
          locations =
              s.locations
              ++ record {
                location_id = q.new_id;
                location_name = name;
                location_type = type;
                description = or_null? description;
                is_active = true;
              }
                ∷ [];
        }))

abbrev noted : Bool → List Piece → List Piece → List Piece
noted changed note [] = if changed then note else []
noted changed note (p ∷ ps) = if changed then note ++ (lit "; " ∷ p ∷ ps) else p ∷ ps

-- `changes`, joined by semicolons
unfoldable pub location_changes : Text → LocationType → Option Text → Location → List Piece
unfolding type_eq
location_changes name type description old =
    noted (not (text_eq name old.location_name)) (lit "renamed from " ∷ val old.location_name ∷ [])
      (noted (not (type_eq type old.location_type))
        (lit "type "
          ∷ lit (type_name_of old.location_type)
          ∷ lit " to "
          ∷ lit (type_name_of type)
          ∷ [])
        (noted (not (opt_text_eq (or_null? description) old.description)) (lit "description" ∷ [])
          []))

unfoldable pub set_row : Text → LocationType → Option Text → Location → Location
set_row name type description l = record l {
  location_name = name;
  location_type = type;
  description = or_null? description;
}

-- `update_location`: whether anything changed
unfoldable pub update_location :
    (same_name : Text → Text → Bool)
    → Request
    → (uid lid : ℕ) → Text
    → LocationType
    → Option Text
    → Store
    → Outcome LocationError (Bool × Store)
unfolding name_is_free get_location location_changes update_row set_row
update_location same_name q uid lid name type description s = do
  old ← or_raise (get_location lid s) location_not_found
  elim (location_changes name type description old) [
    | [] ↦ ok (false, s)
    | p ∷ ps ↦
        require (name_is_free same_name lid name s) name_exists
        >> ok (
          true,
          record_audit q (done uid "location.update" "Storage location" name (p ∷ ps))
              (update_row lid (set_row name type description) s),
        )
  ]

abbrev same_bool : Bool → Bool → Bool
same_bool true b = b
same_bool false b = not b

-- `set_active` of a location
unfoldable pub set_location_active :
    Request → (uid lid : ℕ) → Bool → Store → Outcome LocationError Store
unfolding get_location update_row
set_location_active q uid lid active s = do
  row ← or_raise (get_location lid s) location_not_found
  require (not (same_bool row.is_active active)) already_so
  ok (
      record_audit q
        record {
          user_id = some uid;
          action = if active then "location.activate" else "location.deactivate";
          entity_type = "Storage location";
          entity_ref = some row.location_name;
          outcome = success;
          details = none;
        }
        (update_row lid (λ l. record l { is_active = active }) s))
