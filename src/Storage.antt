-- ===== src/Storage.antt =====
-- app/storage/__init__.py: LocalStorage, a folder of objects named by generated ids. SHA-256 is a
-- parameter, and the bytes that an upload delivers are the results of its successive reads.
pub mod Local
pub mod Digest
pub mod Backend
pub mod Migrate
pub mod Moved
pub mod Run
pub mod Tests
use forge_x.Shared.{
  ltb, leb, ◌==◌, if◌then◌else◌, length, take, drop, find, exists, delete_where, ℕ, zero, suc, ◌+◌,
  ◌*◌, ◌≡◌, Bool, true, false, not, ◌&&◌, ◌||◌, Option, none, some, List, [], ◌∷◌, ◌++◌, map,
}
use forge_x.Shared.Text.{Text, text_eq}
use forge_x.Shared.Outcome.{Outcome, err, ok, ◌>>=◌, ◌>>◌, require, or_raise}

abbrev pub Bytes : Type 0
Bytes = List ℕ

-- `hashlib.sha256()`, `update` and `hexdigest`
pub record Hasher (D : Type 0) : Type 0 where
  pub start : D
  pub update : D → Bytes → D
  pub hexdigest : D → Text

-- What hashlib documents: an update by two chunks is the update by their concatenation.
pub record IsIncremental {D : Type 0} (H : Hasher D) : Type 0 where
  pub update_nothing : (d : D) → H.update d [] ≡ d
  pub update-append : (d : D) (a b : Bytes) → H.update (H.update d a) b ≡ H.update d (a ++ b)

-- StorageError with its message, and the other exceptions of the calls
pub data StorageFailure : Type 0 where
  invalid_identifier file_too_large empty_file file_missing unknown_backend : StorageFailure
  target_unusable mismatched_object mismatched_copy : StorageFailure
  object_exists stream_broken refused_by_database : StorageFailure

-- `isinstance(err, StorageError)`
abbrev pub is_storage_error : StorageFailure → Bool
is_storage_error object_exists = false
is_storage_error stream_broken = false
is_storage_error refused_by_database = false
is_storage_error other = true

-- What one `stream.read(CHUNK)` does: it returns bytes, none at the end, or raises.
pub data Read : Type 0 where
  chunk : Bytes → Read
  broken : Read

pub record StoredObject : Type 0 where
  pub object_id : Text
  pub bytes : Bytes
  pub read_only : Bool

abbrev pub Objects : Type 0
Objects = List StoredObject

-- CHUNK
unfoldable pub chunk_size : ℕ
chunk_size = 1024 * 1024

unfoldable pub is_hex : ℕ → Bool
is_hex c = (leb b'0' c && leb c b'9') || (leb b'a' c && leb c b'f')

-- `[0-9a-f]{n}` at the start of a text: the rest after it
unfoldable pub after_hex : ℕ → Text → Option Text
unfolding is_hex
after_hex zero t = some t
after_hex (suc n) [] = none
after_hex (suc n) (c ∷ t) = let rest = after_hex n t in if is_hex c then rest else none

-- `-[0-9a-f]{n}`, after what came before it
unfoldable pub after_group : ℕ → Option Text → Option Text
unfolding after_hex
after_group n none = none
after_group n (some []) = none
after_group n (some (c ∷ t)) = if c == b'-' then after_hex n t else none

-- `$`: the end, or a line feed before it
abbrev pub at_end : Option Text → Bool
at_end none = false
at_end (some []) = true
at_end (some (c ∷ [])) = c == 10
at_end (some (c ∷ d ∷ t)) = false

-- OBJECT_ID_RE.match
unfoldable pub is_object_id : Text → Bool
unfolding after_hex after_group
is_object_id t =
    at_end (after_group 12 (after_group 4 (after_group 4 (after_group 4 (after_hex 8 t)))))

unfoldable pub named : Text → StoredObject → Bool
named oid o = text_eq o.object_id oid

-- `os.path.isfile(path)`
unfoldable pub has_object : Text → Objects → Bool
unfolding named
has_object oid objects = exists (named oid) objects

-- `_remove`, which passes over a missing file
unfoldable pub remove_object : Text → Objects → Objects
unfolding named
remove_object oid objects = delete_where (named oid) objects

-- The digest, the size and the bytes of `out` in the loop of `put_as`
pub record Writing (D : Type 0) : Type 0 where
  pub digest : D
  pub size : ℕ
  pub written : Bytes

module _ {D : Type 0} (H : Hasher D) where
  unfoldable pub no_bytes : Writing D
  no_bytes = record { digest = H.start; size = 0; written = [] }

  unfoldable pub add_chunk : Bytes → Writing D → Writing D
  add_chunk c w = record {
    digest = H.update w.digest c;
    size = w.size + length c;
    written = w.written ++ c;
  }

  -- The `while True:` loop of `put_as`
  unfoldable pub write_loop : ℕ → List Read → Writing D → Outcome StorageFailure (Writing D)
  unfolding add_chunk
  write_loop max_bytes [] w = ok w
  write_loop max_bytes (broken ∷ reads) w = err stream_broken
  write_loop max_bytes (chunk [] ∷ reads) w = ok w
  write_loop max_bytes (chunk (b ∷ c) ∷ reads) w =
      let rest = write_loop max_bytes reads (add_chunk (b ∷ c) w) in
      if ltb max_bytes (w.size + length (b ∷ c)) then err file_too_large else rest

  -- The block that writes the file: it is created exclusively and must not be empty.
  unfoldable pub write_file : Text → List Read → ℕ → Objects → Outcome StorageFailure (Writing D)
  unfolding write_loop
  write_file oid reads max_bytes objects = do
    require (not (has_object oid objects)) object_exists
    w ← write_loop max_bytes reads no_bytes
    require (not (w.size == 0)) empty_file
    ok w

  -- After the block: the `except` clause removes the path, whatever was raised.
  unfoldable pub finish_file :
      Text
      → Objects
      → Outcome StorageFailure (Writing D)
      → Outcome StorageFailure (Text × ℕ × Text) × Objects
  finish_file oid objects (err e) = (err e, remove_object oid objects)
  finish_file oid objects (ok w) = (
    ok (oid, w.size, H.hexdigest w.digest),
    objects ++ record { object_id = oid; bytes = w.written; read_only = true } ∷ [],
  )

  -- `put_as`
  unfoldable pub put_as :
      Text → List Read → ℕ → Objects → Outcome StorageFailure (Text × ℕ × Text) × Objects
  unfolding write_file finish_file
  put_as oid reads max_bytes objects = elim (is_object_id oid) [
    | false ↦ (err invalid_identifier, objects)
    | true ↦ finish_file oid objects (write_file oid reads max_bytes objects)
  ]

  -- `put`, under the id that `uuid.uuid4()` gives
  unfoldable pub put :
      (uuid : Text) → List Read → ℕ → Objects → Outcome StorageFailure (Text × ℕ × Text) × Objects
  put uuid reads max_bytes objects = put_as uuid reads max_bytes objects

-- The chunks that reads of at most n bytes of a file give, until nothing is left.
unfoldable pub chunks : (fuel n : ℕ) → Bytes → List Bytes
chunks zero n bytes = []
chunks (suc fuel) n [] = []
chunks (suc fuel) n (b ∷ bytes) = take n (b ∷ bytes) ∷ chunks fuel n (drop n (b ∷ bytes))

unfoldable pub reads_of : Bytes → List Read
unfolding chunks
reads_of bytes = map chunk (chunks (length bytes) chunk_size bytes)

-- `open_read`: the bytes that the handle will read
unfoldable pub open_read : Text → Objects → Outcome StorageFailure (List Read)
unfolding named reads_of
open_read oid objects = do
  require (is_object_id oid) invalid_identifier
  stored ← or_raise (find (named oid) objects) file_missing
  ok (reads_of stored.bytes)

module _ {D : Type 0} (H : Hasher D) where
  -- The `while True:` loop of `sha256`
  unfoldable pub hash_loop : List Read → D → ℕ → Outcome StorageFailure (Text × ℕ)
  hash_loop [] d size = ok (H.hexdigest d, size)
  hash_loop (broken ∷ reads) d size = err stream_broken
  hash_loop (chunk [] ∷ reads) d size = ok (H.hexdigest d, size)
  hash_loop (chunk (b ∷ c) ∷ reads) d size =
      hash_loop reads (H.update d (b ∷ c)) (size + length (b ∷ c))

  -- `sha256`
  unfoldable pub sha256 : Text → Objects → Outcome StorageFailure (Text × ℕ)
  unfolding open_read hash_loop
  sha256 oid objects = do reads ← open_read oid objects; hash_loop reads H.start 0

-- `exists`, of a storage
unfoldable pub object_stored : Text → Objects → Outcome StorageFailure Bool
object_stored oid objects = do
  require (is_object_id oid) invalid_identifier
  ok (has_object oid objects)

-- `discard_unrecorded`
unfoldable pub discard_unrecorded : Text → Objects → Outcome StorageFailure Unit × Objects
discard_unrecorded oid objects =
    if is_object_id oid
    then (ok tt, remove_object oid objects)
    else (err invalid_identifier, objects)
