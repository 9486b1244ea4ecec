-- ===== src/Storage/Tests.antt =====
-- Instances of the theorems about storage: a file of three bytes is written and then moved.
use forge_x.Shared.{
  append_nothing, append_assoc, find, exists, select, ℕ, ◌≤◌, ◌<◌, ◌≡◌, refl, sym, ◌≢◌, Bool, true,
  false, none, List, [], ◌∷◌, ◌++◌,
}
use forge_x.Shared.Text.{Text, codes, text_eq}
use forge_x.Shared.Outcome.{err, ok}
use forge_x.Store.Sample.{sample, sample_request}
use forge_x.Storage.{
  Bytes, Hasher, IsIncremental, file_too_large, object_exists, Read, chunk, Objects, chunk_size,
  is_hex, after_hex, after_group, is_object_id, named, has_object, remove_object, no_bytes,
  add_chunk, write_loop, write_file, finish_file, put_as, chunks, reads_of, open_read, hash_loop,
  sha256, object_stored,
}
use forge_x.Storage.Local.{put_as-failed, put_as-existing, put_as-sha256}
use forge_x.Storage.Backend.{Backend, local, local-IsWriteOnce}
use forge_x.Storage.Migrate.{
  StoredFile, FileLocation, latest_location, backend_of, Migration, count_moved, fail_file,
  skip_file, check_target, new_location, row_accepted, record_location, check_copy, after_put,
  copy_file, place_file, move_file, move_next, move_files, largest, todo_of, migrate,
}
use forge_x.Storage.Moved.{Grown}
use forge_x.Storage.Run.{migrate-Grown}

-- A digest that keeps the bytes themselves
abbrev keep_all : Hasher Bytes
keep_all = record { start = []; update = λ d c. d ++ c; hexdigest = λ d. d }

keep_all-IsIncremental : IsIncremental keep_all
keep_all-IsIncremental = record {
  update_nothing = λ d. sym (append_nothing d);
  update-append = append_assoc;
}

abbrev object_1 : Text
object_1 = codes "0123abcd-0000-4000-8000-0123456789ab"

abbrev uploaded : List Read
uploaded = chunk (7 ∷ 8 ∷ []) ∷ chunk (9 ∷ []) ∷ []

writes : (put_as keep_all object_1 uploaded 10 []).0 ≡ ok (object_1, 3, 7 ∷ 8 ∷ 9 ∷ [])
unfolding put_as finish_file write_file write_loop add_chunk no_bytes is_object_id after_group
    after_hex is_hex codes has_object named exists
writes = refl

put_as-sha256_example :
    (object_1 ≡ object_1)
    × ◌<◌ 0 3
    × ◌≤◌ 3 10
    × (has_object object_1 [] ≡ false)
    × (sha256 keep_all object_1 (put_as keep_all object_1 uploaded 10 []).1
        ≡ ok (7 ∷ 8 ∷ 9 ∷ [], 3))
    × ((other : Text)
        → other ≢ object_1
        → find (named other) (put_as keep_all object_1 uploaded 10 []).1 ≡ find (named other) [])
put_as-sha256_example = put_as-sha256 keep_all keep_all-IsIncremental object_1 uploaded 10 [] writes

too_large : (put_as keep_all object_1 uploaded 2 []).0 ≡ err file_too_large
unfolding put_as finish_file write_file write_loop add_chunk no_bytes is_object_id after_group
    after_hex is_hex codes has_object named exists
too_large = refl

absent : has_object object_1 [] ≡ false
unfolding has_object exists
absent = refl

put_as-failed_example : (put_as keep_all object_1 uploaded 2 []).1 ≡ []
put_as-failed_example = put_as-failed keep_all object_1 uploaded 2 [] too_large absent

abbrev held : Objects
held = record { object_id = object_1; bytes = 7 ∷ 8 ∷ 9 ∷ []; read_only = true } ∷ []

valid : is_object_id object_1 ≡ true
unfolding is_object_id after_group after_hex is_hex codes
valid = refl

present : has_object object_1 held ≡ true
unfolding has_object exists named text_eq codes
present = refl

put_as-existing_example :
    (put_as keep_all object_1 uploaded 10 held ≡ (err object_exists, remove_object object_1 held))
    × (has_object object_1 (put_as keep_all object_1 uploaded 10 held).1 ≡ false)
put_as-existing_example = put_as-existing keep_all object_1 uploaded 10 held valid present

abbrev file_1 : StoredFile
file_1 = record {
  file_id = 1;
  evidence_id = 5;
  object_id = object_1;
  original_name = [];
  media_type = [];
  size_bytes = 3;
  sha256 = 7 ∷ 8 ∷ 9 ∷ [];
  stored_by = 7;
}

abbrev object_store : Backend Objects
object_store = record (local keep_all (λ s. true)) { name = codes "s3" }

abbrev unmoved : Migration Objects
unmoved = record {
  target = [];
  locations = [];
  store = sample;
  counts = record { moved = 0; already_there = 0; skipped = 0; failed = 0 };
}

abbrev disk : Backend Objects
disk = local keep_all (λ s. true)

abbrev takes_all : FileLocation → Bool
takes_all l = true

abbrev code_of : ℕ → Text
code_of e = []

migrate-Grown_example :
    Grown disk held object_store
      (todo_of disk held object_store takes_all code_of sample_request 7 none (file_1 ∷ []) [])
      []
      (migrate disk held object_store takes_all code_of sample_request 7 100 none false
        (file_1 ∷ [])
        unmoved).1
migrate-Grown_example =
    migrate-Grown disk held object_store takes_all code_of sample_request 7
      (local-IsWriteOnce keep_all (λ s. true) (codes "s3")) 100 none false (file_1 ∷ []) unmoved

ends :
    (migrate disk held object_store takes_all code_of sample_request 7 100 none false
      (file_1 ∷ [])
      unmoved).0
    ≡ ok tt
unfolding migrate move_files move_file place_file copy_file after_put check_copy check_target
    record_location row_accepted new_location todo_of backend_of latest_location largest local
    put_as finish_file write_file write_loop add_chunk no_bytes is_object_id after_group after_hex
    is_hex codes has_object named exists text_eq object_stored sha256 open_read hash_loop reads_of
    chunks chunk_size count_moved find select move_next fail_file skip_file
ends = refl
