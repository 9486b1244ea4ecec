-- ===== src/Storage/Backend.antt =====
-- The interface that LocalStorage and app/storage/s3.py share, what its clients rely on, and the
-- local disk as one instance of it.
use forge_x.Shared.{ℕ, ◌≡◌, ap, ◌∙◌, Bool, false, Option, none, List}
use forge_x.Shared.Text.{Text, codes}
use forge_x.Shared.Outcome.{Outcome, ok}
use forge_x.Storage.{
  Hasher, StorageFailure, Read, Objects, put_as, open_read, sha256, object_stored,
  discard_unrecorded,
}
use forge_x.Storage.Local.{put_as-keeps, discard-put_as}

pub record Backend (S : Type 0) : Type 0 where
  pub name : Text
  pub container : Option Text
  pub usable : S → Bool
  pub exists? : Text → S → Outcome StorageFailure Bool
  pub sha256_of : Text → S → Outcome StorageFailure (Text × ℕ)
  pub read : Text → S → Outcome StorageFailure (List Read)
  pub store_as : Text → List Read → ℕ → S → Outcome StorageFailure (Text × ℕ × Text) × S
  pub discard : Text → S → Outcome StorageFailure Unit × S

-- A free id may be written, and cleared again, without touching an object that can be hashed.
pub record IsWriteOnce {S : Type 0} (B : Backend S) : Type 0 where
  pub store_keeps :
      (oid other : Text) (reads : List Read) (max_bytes : ℕ) (s : S) (v : Text × ℕ)
      → B.exists? oid s ≡ ok false
      → B.sha256_of other s ≡ ok v
      → B.sha256_of other (B.store_as oid reads max_bytes s).1 ≡ ok v
  pub discard_keeps :
      (oid other : Text) (reads : List Read) (max_bytes : ℕ) (s : S) (v : Text × ℕ)
      → B.exists? oid s ≡ ok false
      → B.sha256_of other s ≡ ok v
      → B.sha256_of other (B.discard oid (B.store_as oid reads max_bytes s).1).1 ≡ ok v

-- LocalStorage; `health` is about the disk, and `healthy` stands for what it finds.
unfoldable pub local : {D : Type 0} → Hasher D → (healthy : Objects → Bool) → Backend Objects
local H healthy = record {
  name = codes "local";
  container = none;
  usable = healthy;
  exists? = object_stored;
  sha256_of = sha256 H;
  read = open_read;
  store_as = put_as H;
  discard = discard_unrecorded;
}

pub local-IsWriteOnce :
    {D : Type 0} (H : Hasher D) (healthy : Objects → Bool) (n : Text)
    → IsWriteOnce (record (local H healthy) { name = n })
unfolding local
local-IsWriteOnce H healthy n = record {
  store_keeps = put_as-keeps H;
  discard_keeps = λ oid other reads max_bytes s v free h.
      ap (sha256 H other) (discard-put_as H oid reads max_bytes s free) ∙ h;
}
