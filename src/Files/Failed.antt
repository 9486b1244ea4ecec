-- ===== src/Files/Failed.antt =====
-- What a registration with a file that fails has left, on every path of its errors.
use forge_x.Shared.{ℕ, ◌≡◌, Bool, true, List, [], ◌∷◌, ◌++◌}
use forge_x.Shared.Text.{Text}
use forge_x.Shared.Outcome.{Outcome}
use forge_x.Store.{Evidence, Request}
use forge_x.Storage.{Hasher, Objects, has_object}
use forge_x.Evidence.{NewIds}
use forge_x.Files.{FileError, stopped_after_registration, Files}

-- An item that is registered without a record of its file, whose object is stored
pub record LeftBehind (uuid : Text) (e : FileError) (w w' : Files) : Type 0 where
  pub was_stopped : w.stopped ≡ true
  pub says_so : e ≡ stopped_after_registration
  pub item : Evidence
  pub item_added : w'.store.evidence ≡ w.store.evidence ++ item ∷ []
  pub files_same : w'.files ≡ w.files
  pub locations_same : w'.locations ≡ w.locations
  pub object_left : has_object uuid w'.objects ≡ true

module _ {D : Type 0} (H : Hasher D) (q : Request) (types : List ℕ) (year : ℕ) (ids : NewIds)
    (file_id : ℕ) (takes : Bool) (max_bytes : ℕ) where
  -- What an upload that was stored has left
  abbrev IsStored : Text → Files → Files → Type 0
  IsStored uuid w w' =
      (objects : Objects) × (w' ≡ record w { objects = objects }) × (has_object uuid objects ≡ true)
