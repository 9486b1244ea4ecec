-- ===== src/Files/Recorded.antt =====
-- What a file that was accepted has left: its object, its row and the item's reference hash agree.
use forge_x.Shared.{
  ◌==◌, exists, ℕ, ◌≡◌, refl, ◌⊎◌, inl, inr, false, none, some, List, [], ◌∷◌, ◌++◌, arith,
}
use forge_x.Shared.Text.{Text}
use forge_x.Shared.Outcome.{Outcome, ok, Outcome-cases}
use forge_x.Store.{HashRow}
use forge_x.Integrity.{current_hash}
use forge_x.Storage.{Hasher, Read, has_object, put_as, put, sha256}
use forge_x.Storage.Migrate.{StoredFile}
use forge_x.Files.{Files, store_upload, location_row}
use forge_x.Files.Attach.{computed_row}

-- The stored object, the row that names it and its location, which are new
pub record Kept {D : Type 0} (H : Hasher D) (w w' : Files) (f : StoredFile) : Type 0 where
  pub file_added : w'.files ≡ w.files ++ f ∷ []
  pub location_added : w'.locations ≡ w.locations ++ location_row f ∷ []
  pub no_file_before : exists (λ x. x.evidence_id == f.evidence_id) w.files ≡ false
  pub object_new : has_object f.object_id w.objects ≡ false
  pub object_hash : sha256 H f.object_id w'.objects ≡ ok (f.sha256, f.size_bytes)

-- The reference hash of the item: it is the file's, whether it was there or is now recorded.
pub record Matched (w w' : Files) (hash_id : ℕ) (f : StoredFile) : Type 0 where
  pub hashes_after :
      ((current : HashRow) × (current_hash w.store.hashes f.evidence_id ≡ some current)
        × (current.hash_value ≡ f.sha256)
        × (w'.store.hashes ≡ w.store.hashes))
      ⊎ ((current_hash w.store.hashes f.evidence_id ≡ none)
          × (w'.store.hashes ≡ w.store.hashes ++ computed_row hash_id f ∷ []))

module _ {D : Type 0} (H : Hasher D) where
  pub store_upload-returned :
      (uuid filename : Text) (stream : List Read) (max_bytes : ℕ) (w : Files) (v : Text × ℕ × Text)
      → (store_upload H uuid (record { filename = filename; stream = stream }) max_bytes w).0 ≡ ok v
      → ((put_as H uuid stream max_bytes w.objects).0 ≡ ok v)
        × ((store_upload H uuid (record { filename = filename; stream = stream }) max_bytes w).1
            ≡ record w { objects = (put_as H uuid stream max_bytes w.objects).1 })
  unfolding store_upload put
  store_upload-returned uuid [] stream max_bytes w v h = cc
  store_upload-returned uuid (c ∷ t) stream max_bytes w v h =
      elim (Outcome-cases (put_as H uuid stream max_bytes w.objects).0) [
        | inl e ↦ absurd (ground (arith, e.1))
        | inr r ↦ (ground (arith, r.1), refl)
      ]
