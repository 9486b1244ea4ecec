-- ===== src/Files.antt =====
-- app/evidence/files.py on the local disk: a file is written, then recorded, and removed again when
-- it could not be recorded. `takes` tells whether the database takes the second transaction, and
-- secure_filename and mimetypes are parameters.
pub mod Attach
pub mod Clean
pub mod Recorded
pub mod Failed
pub mod Tests
use mathlib.Core.List.{reverse}
use forge_x.Shared.{
  ltb, ◌==◌, if◌then◌else◌, is_some, length, take, find, exists, ℕ, Bool, true, false, not, ◌&&◌,
  ◌||◌, Option, none, some, List, [], ◌∷◌, ◌++◌,
}
use forge_x.Shared.Text.{Text, codes, text_eq, or_null, or_null?, decimal, Piece, lit, val, render}
use forge_x.Shared.Outcome.{Outcome, err, ok, ◌>>=◌, ◌>>◌, require}
use forge_x.Access.{
  administrator, investigator, custodian, is_closed, Actor, ItemRow, holds, holds_any,
}
use forge_x.Store.{HashSource, computed, Evidence, Store, Request}
use forge_x.Store.Audit.{record_audit, done}
use forge_x.Integrity.{is_sha256, is_manual}
use forge_x.Storage.{
  Hasher, StorageFailure, Read, Objects, is_object_id, put, sha256, discard_unrecorded,
}
use forge_x.Storage.Migrate.{StoredFile, FileLocation}
use forge_x.Evidence.{EvidenceError, NewIds, Registration, register_evidence}

pub data FileError : Type 0 where
  stopped_after_registration : FileError
  choose_a_file differs_from_typed already_stored differs_from_reference : FileError
  not_recorded no_stored_file file_unreadable check_refused : FileError
  storage_refused : StorageFailure → FileError
  registration_refused : EvidenceError → FileError

-- The rows and the objects that the functions of the module change
pub record Files : Type 0 where
  pub store : Store
  pub files : List StoredFile
  pub locations : List FileLocation
  pub objects : Objects
  -- What the surroundings do: whether the disk lets the app remove a file, and whether an error that
  -- is not a DatabaseError stops a registration after its evidence is committed.
  pub can_remove : Bool
  pub stopped : Bool

-- `f"{n:,}"`: a comma before every three digits from the end, of the digits reversed
unfoldable pub group_digits : Text → Text
group_digits (a ∷ b ∷ c ∷ d ∷ t) = a ∷ b ∷ c ∷ b',' ∷ group_digits (d ∷ t)
group_digits t = t

unfoldable pub grouped : ℕ → Text
unfolding group_digits
grouped n = reverse (group_digits (reverse (decimal n)))

-- What a request uploads: its filename and the reads of its stream
pub record Upload : Type 0 where
  pub filename : Text
  pub stream : List Read

-- `_staff_or_assigned`
unfoldable pub staff_or_assigned : Actor → Bool → Bool
staff_or_assigned user assigned =
    holds_any (administrator ∷ custodian ∷ []) user.roles
    || (holds investigator user.roles && assigned)

unfoldable pub can_download : Actor → Bool → Bool
unfolding staff_or_assigned
can_download user assigned = staff_or_assigned user assigned

unfoldable pub can_attach : Actor → ItemRow → Bool → Bool
unfolding staff_or_assigned
can_attach user item assigned = not (is_closed item.case_status) && staff_or_assigned user assigned

-- `get_file`
unfoldable pub get_file : ℕ → Files → Option StoredFile
get_file eid w = find (λ f. f.evidence_id == eid) w.files

abbrev text_or : Option Text → Text → Text
text_or none other = other
text_or (some t) other = t

-- `describe_upload`
unfoldable pub describe_upload :
    (secure_filename : Text → Text) (guess_type : Text → Option Text) → Upload → Text × Text
describe_upload secure_filename guess_type upload =
    let name = text_or (or_null (secure_filename upload.filename)) (codes "evidence") in
    let media = text_or (guess_type name) (codes "application/octet-stream") in
    (take 255 name, take 100 media)

-- `_store`, under the id that uuid4 gives
unfoldable pub store_upload :
    {D : Type 0}
    → Hasher D
    → (uuid : Text) → Upload
    → (max_bytes : ℕ) → Files
    → Outcome FileError (Text × ℕ × Text) × Files
store_upload H uuid upload max_bytes w = elim upload.filename [
  | [] ↦ (err choose_a_file, w)
  | c ∷ t ↦
      let result = put H uuid upload.stream max_bytes w.objects in
      (
        elim result.0 [ err e ↦ err (storage_refused e) | ok v ↦ ok v ],
        record w { objects = result.1 },
      )
]

-- `_discard`; a removal that fails is only logged.
unfoldable pub discard : Text → Files → Files
discard uuid w =
    if w.can_remove then record w { objects = (discard_unrecorded uuid w.objects).1 } else w

-- The ids of the two rows that `_insert_file_row` adds, and what they hold
unfoldable pub file_row : ℕ → ℕ → (Text × ℕ × Text) → Text × Text → ℕ → StoredFile
file_row fid eid stored_as names uid = record {
  file_id = fid;
  evidence_id = eid;
  object_id = stored_as.0;
  original_name = names.0;
  media_type = names.1;
  size_bytes = stored_as.1;
  sha256 = stored_as.2;
  stored_by = uid;
}

unfoldable pub location_row : StoredFile → FileLocation
location_row f = record {
  file_id = f.file_id;
  backend = codes "local";
  container = none;
  sha256_before = none;
  sha256_after = f.sha256;
  moved_by = f.stored_by;
}

-- uq_ef_evidence, uq_ef_object, fk_ef_evidence, chk_ef_object, chk_ef_sha256 and chk_ef_size
unfoldable pub file_valid : Files → StoredFile → Bool
file_valid w f =
    not (exists (λ x. x.evidence_id == f.evidence_id) w.files)
    && not (exists (λ x. text_eq x.object_id f.object_id) w.files)
    && exists (λ e. e.evidence_id == f.evidence_id) w.store.evidence
    && (length f.object_id == 36 && is_object_id f.object_id)
    && is_sha256 f.sha256
    && ltb 0 f.size_bytes

-- `_insert_file_row`
unfoldable pub insert_file_row : (takes : Bool) → StoredFile → Files → Outcome FileError Files
unfolding file_valid location_row
insert_file_row takes f w = do
  require (file_valid w f && takes) not_recorded
  ok (record w { files = w.files ++ f ∷ []; locations = w.locations ++ location_row f ∷ [] })

-- `audit.record("evidence.file_store", …)`
unfoldable pub audit_stored : Request → Text → StoredFile → List Piece → Files → Files
audit_stored q code f more w = record w {
  store =
      record_audit q
        (done f.stored_by "evidence.file_store" "Evidence" code (
          val f.original_name
          ∷ lit ", "
          ∷ val (grouped f.size_bytes)
          ∷ lit " bytes, SHA-256 "
          ∷ val f.sha256
          ∷ more))
        w.store;
}

-- `fields["size_bytes"] or size`
abbrev pub size_or : Option ℕ → ℕ → Option ℕ
size_or none size = some size
size_or (some n) size = if n == 0 then some size else some n

-- `typed_hash and typed_hash != sha256`
abbrev pub typed_differs : Option Text → Text → Bool
typed_differs none sha = false
typed_differs (some []) sha = false
typed_differs (some (c ∷ t)) sha = not (text_eq (c ∷ t) sha)

-- The notes of the hash: those that were typed for a manual hash, or how it was computed
unfoldable pub hash_notes_of : Option Text → HashSource → Option Text → Text → ℕ → Text
hash_notes_of typed source notes name size =
    let computed_note = render (
      lit "Computed by FORGE-X while storing "
      ∷ val name
      ∷ lit " ("
      ∷ val (grouped size)
      ∷ lit " bytes)"
      ∷ []) in
    if is_some (or_null? typed) && is_manual source
    then text_or (or_null? notes) computed_note
    else computed_note

-- What `register_with_file` registers: the given fields with the file's hash
unfoldable pub with_hash : Registration → (Text × ℕ × Text) → Text → Registration
with_hash fields stored_as notes = record fields {
  size_bytes = size_or fields.size_bytes stored_as.1;
  hash_value = some stored_as.2;
  hash_source = computed;
  hash_notes = some notes;
}

pub record Typed : Type 0 where
  pub hash : Option Text
  pub source : HashSource
  pub notes : Option Text

abbrev id_of : Option Evidence → ℕ
id_of none = 0
id_of (some e) = e.evidence_id

module _ {D : Type 0} (H : Hasher D) (q : Request) (types : List ℕ) (year : ℕ) (ids : NewIds)
    (file_id : ℕ) (takes : Bool) (max_bytes : ℕ) where
  -- The second transaction: a refusal leaves a warning, and the file is removed.
  unfoldable pub record_file :
      Text → Text → StoredFile → Files → Outcome FileError (Text × Bool) × Files
  unfolding insert_file_row audit_stored discard
  record_file uuid code f w = elim (insert_file_row takes f w) [
    | err e ↦ (ok (code, true), discard uuid w)
    | ok w' ↦ (ok (code, false), audit_stored q code f [] w')
  ]

  -- After the write: the registration, and the record of the file. An error between or in these two
  -- that is not a DatabaseError leaves the item registered and the object stored.
  unfoldable pub register_stored :
      Actor
      → Text × Text
      → Registration
      → Typed
      → (Text × ℕ × Text)
      → Files
      → Outcome FileError (Text × Bool) × Files
  unfolding record_file hash_notes_of with_hash file_row discard
  register_stored user names fields typed stored_as w =
      let notes = hash_notes_of typed.hash typed.source typed.notes names.0 stored_as.1 in
      let registration =
        register_evidence q types year ids user (with_hash fields stored_as notes) w.store in
      if typed_differs typed.hash stored_as.2
      then (err differs_from_typed, discard stored_as.0 w)
      else elim registration [
        | err e ↦ (err (registration_refused e), discard stored_as.0 w)
        | ok r ↦
            if w.stopped
            then (err stopped_after_registration, record w { store = r.1 })
            else record_file stored_as.0 r.0
                (file_row file_id (id_of (find (λ e. text_eq e.evidence_code r.0) r.1.evidence))
                  stored_as names user.user_id)
                (record w { store = r.1 })
      ]

  unfoldable pub after_store :
      Actor
      → Text × Text
      → Registration
      → Typed
      → Outcome FileError (Text × ℕ × Text) × Files
      → Outcome FileError (Text × Bool) × Files
  unfolding register_stored
  after_store user names fields typed (err e, w) = (err e, w)
  after_store user names fields typed (ok stored_as, w) =
      register_stored user names fields typed stored_as w

  -- `register_with_file`: the code, and whether there is a warning
  unfoldable pub register_with_file :
      (names : Text × Text) (uuid : Text)
      → Actor
      → Upload
      → Registration
      → Typed
      → Files
      → Outcome FileError (Text × Bool) × Files
  unfolding after_store store_upload
  register_with_file names uuid user upload fields typed w =
      after_store user names fields typed (store_upload H uuid upload max_bytes w)
