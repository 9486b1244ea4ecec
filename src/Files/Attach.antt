-- ===== src/Files/Attach.antt =====
-- The rest of app/evidence/files.py: a file for an item registered without one, and the check of
-- the stored copy.
use forge_x.Shared.{
  ◌==◌, if◌then◌else◌, is_some, exists, ℕ, Bool, not, Option, none, some, List, [], ◌∷◌,
}
use forge_x.Shared.Text.{Text, text_eq, Piece, lit, val, render}
use forge_x.Shared.Outcome.{Outcome, err, ok, ◌>>=◌, ◌>>◌, require}
use forge_x.Store.{computed, stored_file, HashResult, failure, Evidence, HashRow, Request}
use forge_x.Store.Audit.{record_audit}
use forge_x.Integrity.{current_hash, insert_hash, Check, verify}
use forge_x.Storage.{Hasher, sha256}
use forge_x.Storage.Migrate.{StoredFile}
use forge_x.Files.{
  FileError, already_stored, differs_from_reference, not_recorded, no_stored_file, file_unreadable,
  check_refused, Files, grouped, Upload, get_file, store_upload, discard, file_row, insert_file_row,
  audit_stored,
}

-- INSERT INTO evidence_hashes, of an item that has no current hash
unfoldable pub computed_row : ℕ → StoredFile → HashRow
unfolding grouped
computed_row hid f = record {
  hash_id = hid;
  evidence_id = f.evidence_id;
  hash_value = f.sha256;
  source = computed;
  source_notes = some (
      render (
        lit "Computed by FORGE-X while storing "
        ∷ val f.original_name
        ∷ lit " ("
        ∷ val (grouped f.size_bytes)
        ∷ lit " bytes)"
        ∷ []));
  recorded_by = f.stored_by;
  supersedes_hash_id = none;
  correction_reason = none;
}

-- The current hash must be the file's; without one, the file's becomes the original.
unfoldable pub match_reference : ℕ → StoredFile → Files → Outcome FileError Files
unfolding computed_row
match_reference hid f w = elim (current_hash w.store.hashes f.evidence_id) [
  | none ↦ elim (insert_hash w.store (computed_row hid f)) [
    | err e ↦ err not_recorded
    | ok s ↦ ok (record w { store = s })
  ]
  | some current ↦ if text_eq current.hash_value f.sha256 then ok w else err differs_from_reference
]

abbrev pub original_note : Option HashRow → List Piece
original_note none = lit "; recorded as the original reference hash" ∷ []
original_note (some h) = []

-- The transaction of `attach`
unfoldable pub attach_row :
    Request → ℕ → (takes : Bool) → Evidence → StoredFile → Files → Outcome FileError Files
unfolding match_reference
attach_row q hid takes item f w = do
  require (exists (λ e. e.evidence_id == f.evidence_id) w.store.evidence) not_recorded
  require (not (exists (λ x. x.evidence_id == f.evidence_id) w.files)) already_stored
  w1 ← match_reference hid f w
  w2 ← insert_file_row takes f w1
  ok (
      audit_stored q item.evidence_code f
        (original_note (current_hash w.store.hashes f.evidence_id)) w2)

module _ {D : Type 0} (H : Hasher D) (q : Request) (hash_id file_id : ℕ) (takes : Bool)
    (max_bytes : ℕ) where
  unfoldable pub attach_stored :
      Evidence
      → ℕ
      → Text × Text
      → Outcome FileError (Text × ℕ × Text) × Files
      → Outcome FileError Text × Files
  unfolding attach_row
  attach_stored item uid names (err e, w) = (err e, w)
  attach_stored item uid names (ok stored_as, w) =
      elim (attach_row q hash_id takes item (file_row file_id item.evidence_id stored_as names uid)
        w) [ err e ↦ (err e, discard stored_as.0 w) | ok w' ↦ (ok stored_as.2, w') ]

  -- `attach`
  unfoldable pub attach :
      (names : Text × Text) (uuid : Text)
      → Evidence
      → ℕ
      → Upload
      → Files
      → Outcome FileError Text × Files
  unfolding attach_stored
  attach names uuid item uid upload w =
      let stored_upload = attach_stored item uid names (store_upload H uuid upload max_bytes w) in
      if is_some (get_file item.evidence_id w) then (err already_stored, w) else stored_upload

  -- The check that `verify_stored` asks integrity.verify for
  unfoldable pub check_of : ℕ → ℕ → StoredFile → Text × ℕ → Check
  check_of eid uid f hashed = record {
    evidence_id = eid;
    user_id = uid;
    computed_hash = hashed.0;
    method = stored_file;
    sample_file_name = some f.original_name;
    sample_size = some hashed.1;
    notes = none;
  }

  -- `verify_stored`: the outcome of the check and the hash that it computed
  unfoldable pub verify_stored :
      Evidence → ℕ → Files → Outcome FileError (HashResult × Text) × Files
  unfolding check_of
  verify_stored item uid w = elim (get_file item.evidence_id w) [
    | none ↦ (err no_stored_file, w)
    | some f ↦ elim (sha256 H f.object_id w.objects) [
      | err e ↦ (
        err file_unreadable,
        record w {
          store =
              record_audit q
                record {
                  user_id = some uid;
                  action = "hash.verify";
                  entity_type = "Evidence";
                  entity_ref = some item.evidence_code;
                  outcome = failure;
                  details =
                      some (lit "Stored file could not be read: verification unavailable" ∷ []);
                }
                w.store;
        },
      )
      | ok hashed ↦ elim (verify q (check_of item.evidence_id uid f hashed) w.store) [
        | err e ↦ (err check_refused, w)
        | ok r ↦ (ok (r.0.0, hashed.0), record w { store = r.1 })
      ]
    ]
  ]
