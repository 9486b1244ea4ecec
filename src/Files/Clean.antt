-- ===== src/Files/Clean.antt =====
-- A call that fails leaves the rows and the objects as they were: an unrecorded file is removed.

use forge_x.Shared.{
  Bool-cases, ℕ, ◌≡◌, refl, ap, ◌∙◌, ◌⊎◌, inl, inr, Bool, true, false, List, [], ◌∷◌, arith,
}
use forge_x.Shared.Text.{Text}
use forge_x.Shared.Outcome.{Outcome, err, ok, Outcome-cases}
use forge_x.Access.{Actor}
use forge_x.Store.{Evidence, Store, Request}
use forge_x.Storage.{
  Hasher, StorageFailure, Objects, put_as, put, object_stored, discard_unrecorded,
}
use forge_x.Storage.Local.{put_as-failed, put_as-appended, discard-put_as}
use forge_x.Evidence.{NewIds, Registration, register_evidence}
use forge_x.Files.{
  FileError, stopped_after_registration, storage_refused, Files, Upload, store_upload, discard,
  typed_differs, hash_notes_of, with_hash, Typed, record_file, register_stored,
}
use forge_x.Files.Attach.{attach_stored, attach}

-- What removing the stored upload, if there is one, leaves
abbrev pub Undoable : Files → Outcome FileError (Text × ℕ × Text) × Files → Type 0
Undoable w (err e, w') = w' ≡ w
Undoable w (ok stored_as, w') = discard stored_as.0 w' ≡ w

with_objects-same :
    (w : Files) (objects : Objects) → objects ≡ w.objects → record w { objects = objects } ≡ w
with_objects-same w objects h = ground (arith, h)

discard_removes :
    (uuid : Text) (w : Files)
    → w.can_remove ≡ true
    → discard uuid w ≡ record w { objects = (discard_unrecorded uuid w.objects).1 }
unfolding discard
discard_removes uuid w can = ground (arith, can)

module _ {D : Type 0} (H : Hasher D) where
  stored-Undoable :
      (w : Files) (result : Outcome StorageFailure (Text × ℕ × Text) × Objects) (uuid : Text)
      → ((e : StorageFailure) → result.0 ≡ err e → result.1 ≡ w.objects)
      → ((v : Text × ℕ × Text) → result.0 ≡ ok v → v.0 ≡ uuid)
      → (discard_unrecorded uuid result.1).1 ≡ w.objects
      → w.can_remove ≡ true
      → Undoable w (
        elim result.0 as (λ _. Outcome FileError (Text × ℕ × Text)) [
          | err e ↦ err (storage_refused e)
          | ok v ↦ ok v
        ],
        record w { objects = result.1 },
      )
  unfolding discard
  stored-Undoable w (err e, objects) uuid none_left same_id undone can =
      with_objects-same w objects (none_left e refl)
  stored-Undoable w (ok v, objects) uuid none_left same_id undone can =
      discard_removes v.0 (record w { objects = objects }) can
      ∙ with_objects-same w (discard_unrecorded v.0 objects).1
          (ap (λ u. (discard_unrecorded u objects).1) (same_id v refl) ∙ undone)

  pub store_upload-Undoable :
      (uuid : Text) (upload : Upload) (max_bytes : ℕ) (w : Files)
      → w.can_remove ≡ true
      → object_stored uuid w.objects ≡ ok false
      → Undoable w (store_upload H uuid upload max_bytes w)
  unfolding store_upload put object_stored
  store_upload-Undoable uuid upload max_bytes w can free =
      elim upload.filename
        as (λ n.
          Undoable w
            (store_upload H uuid (record { filename = n; stream = upload.stream }) max_bytes w)) [
              | [] ↦ refl
              | c ∷ t ↦
                  stored-Undoable w (put_as H uuid upload.stream max_bytes w.objects) uuid
                    (λ e h.
                      put_as-failed H uuid upload.stream max_bytes w.objects h
                        (ground (arith, free)))
                    (λ v h.
                      ground
                        (arith, (put_as-appended H uuid upload.stream max_bytes w.objects h).1.2))
                    (discard-put_as H uuid upload.stream max_bytes w.objects free) can
            ]

module _ {D : Type 0} (H : Hasher D) (q : Request) (types : List ℕ) (year : ℕ) (ids : NewIds)
    (file_id : ℕ) (takes : Bool) (max_bytes : ℕ) where
  -- The item was registered, and an error then left it without the record of its file.
  pub data HasStopped (user : Actor) (r : Registration) (e : FileError) (w w' : Files)
      : Type 0 where
    left :
        (code : Text) (s : Store)
        → w.stopped ≡ true
        → e ≡ stopped_after_registration
        → register_evidence q types year ids user r w.store ≡ ok (code, s)
        → w' ≡ record w { store = s }
        → HasStopped user r e w w'

  pub register_stored-failed :
      (user : Actor) (names : Text × Text) (fields : Registration) (typed : Typed)
      (stored_as : Text × ℕ × Text) (w : Files) {e : FileError}
      → (register_stored H q types year ids file_id takes max_bytes user names fields typed
          stored_as w).0
        ≡ err e
      → ((register_stored H q types year ids file_id takes max_bytes user names fields typed
            stored_as w).1
          ≡ discard stored_as.0 w)
        ⊎ ((r : Registration) × HasStopped user r e w
              (register_stored H q types year ids file_id takes max_bytes user names fields typed
                stored_as w).1)
  unfolding register_stored record_file
  register_stored-failed user names fields typed stored_as w h =
      let notes = hash_notes_of typed.hash typed.source typed.notes names.0 stored_as.1 in
      let r = with_hash fields stored_as notes in
      elim (Bool-cases (typed_differs typed.hash stored_as.2)) [
        | inl t ↦ inl (ground (arith, t))
        | inr t ↦ elim (Outcome-cases (register_evidence q types year ids user r w.store)) [
          | inl e ↦ inl (ground (arith, t, e.1))
          | inr k ↦ elim (Bool-cases w.stopped) [
            | inl m ↦ inr (
              r,
              left k.0.0 k.0.1 m (ground (arith, t, k.1, m)) (ground (arith, k.1))
                  (ground (arith, t, k.1, m)),
            )
            | inr m ↦ absurd (ground (arith, t, k.1, m))
          ]
        ]
      ]

module _ {D : Type 0} (H : Hasher D) (q : Request) (hash_id file_id : ℕ) (takes : Bool)
    (max_bytes : ℕ) where
  attach_stored-failed :
      (item : Evidence) (uid : ℕ) (names : Text × Text)
      (r : Outcome FileError (Text × ℕ × Text) × Files) (w : Files) {e : FileError}
      → Undoable w r
      → (attach_stored H q hash_id file_id takes max_bytes item uid names r).0 ≡ err e
      → (attach_stored H q hash_id file_id takes max_bytes item uid names r).1 ≡ w
  unfolding attach_stored
  attach_stored-failed item uid names (err e', w') w u h = u
  attach_stored-failed item uid names (ok stored_as, w') w u h = ground (arith, u)

  -- An attachment that fails, because the item has a file, the upload or its hash is refused or the
  -- database does not take the rows, changes nothing if the new object's id is well formed and free and files
  -- can be removed.
  pub attach-failed :
      (names : Text × Text) (uuid : Text) (item : Evidence) (uid : ℕ) (upload : Upload) (w : Files)
      {e : FileError}
      → w.can_remove ≡ true
      → object_stored uuid w.objects ≡ ok false
      → (attach H q hash_id file_id takes max_bytes names uuid item uid upload w).0 ≡ err e
      → (attach H q hash_id file_id takes max_bytes names uuid item uid upload w).1 ≡ w
  unfolding attach
  attach-failed names uuid item uid upload w {e} can free h = ground (
    arith,
    attach_stored-failed item uid names (store_upload H uuid upload max_bytes w) w {e = e}
        (store_upload-Undoable H uuid upload max_bytes w can free),
  )
