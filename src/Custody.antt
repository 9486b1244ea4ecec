-- ===== src/Custody.antt =====
-- app/custody/services.py: which custody actions an item's status allows, and what they lead to.
-- The changes are in Custody/Procedures.antt (sp_transfer_evidence and
-- sp_record_custody_correction of database/procedures.sql) and Custody/Changes.antt.
pub mod Procedures
pub mod Changes
pub mod Table
pub mod Latest
pub mod Tests
pub mod History
pub mod Inversion
pub mod InStep
use forge_x.Shared.{
  if◌then◌else◌, exists, select, Bool, true, false, ◌&&◌, Option, none, some, List, [], ◌∷◌,
}
use forge_x.Access.{investigator, Actor, holds, custody_staff}
use forge_x.Store.{
  ItemStatus, in_transit, in_storage, checked_out, under_examination, released_item, archived_item,
  Action, collected, received, transferred, check_out, examined, returned, stored, released,
  archived, exported,
}

unfoldable pub action_eq : Action → Action → Bool
action_eq collected collected = true
action_eq received received = true
action_eq transferred transferred = true
action_eq check_out check_out = true
action_eq examined examined = true
action_eq returned returned = true
action_eq stored stored = true
action_eq released released = true
action_eq archived archived = true
action_eq exported exported = true
action_eq _ _ = false

unfoldable pub allowed_from : ItemStatus → List Action
allowed_from in_transit = received ∷ transferred ∷ stored ∷ []
allowed_from in_storage = transferred ∷ check_out ∷ stored ∷ released ∷ archived ∷ []
allowed_from checked_out = received ∷ transferred ∷ examined ∷ returned ∷ stored ∷ []
allowed_from under_examination = transferred ∷ examined ∷ returned ∷ []
allowed_from released_item = archived ∷ []
allowed_from archived_item = []

-- RESULTING_STATUS, `none` for an action that the dictionary lacks
unfoldable pub resulting : Action → Option ItemStatus
resulting received = some in_storage
resulting stored = some in_storage
resulting returned = some in_storage
resulting check_out = some checked_out
resulting examined = some under_examination
resulting released = some released_item
resulting archived = some archived_item
resulting _ = none

abbrev or_else {ℓ} : {A : Type ℓ} → Option A → A → A
or_else none d = d
or_else (some a) d = a

unfoldable pub resulting_status : Action → ItemStatus → ItemStatus
unfolding resulting
resulting_status action current = or_else (resulting action) current

abbrev is_in_storage : Option ItemStatus → Bool
is_in_storage (some in_storage) = true
is_in_storage _ = false

unfoldable pub needs_storage_location : Action → Bool
unfolding resulting
needs_storage_location action = is_in_storage (resulting action)

-- `action in actions`
unfoldable pub offers : List Action → Action → Bool
unfolding action_eq
offers actions action = exists (action_eq action) actions

-- `user_actions` is None for every action
unfoldable pub allowed_actions : ItemStatus → Option (List Action) → List Action
unfolding allowed_from offers
allowed_actions status none = allowed_from status
allowed_actions status (some user_actions) = select (offers user_actions) (allowed_from status)

unfoldable pub investigator_custody_actions : List Action
investigator_custody_actions = check_out ∷ examined ∷ returned ∷ []

-- access.custody_actions_for; `none` is every action
unfoldable pub custody_actions_for : Actor → Bool → Option (List Action)
unfolding investigator_custody_actions
custody_actions_for user assigned =
    if custody_staff user
    then none
    else if holds investigator user.roles && assigned
    then some investigator_custody_actions
    else some []
