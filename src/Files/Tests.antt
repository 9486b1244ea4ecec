-- ===== src/Files/Tests.antt =====
-- Instances of the theorems about stored files: a file of three bytes for the sample's item.
use forge_x.Shared.{find, exists, ℕ, zero, suc, ◌≡◌, refl, true, false, none, some, [], ◌∷◌}
use forge_x.Shared.Text.{Text, codes}
use forge_x.Shared.Outcome.{err, ok}
use forge_x.Access.{investigator, Actor}
use forge_x.Store.{computed}
use forge_x.Store.Sample.{sample_item, sample, sample_request}
use forge_x.Integrity.{is_hex}
use forge_x.Storage.{
  Hasher, file_too_large, chunk, after_hex, after_group, is_object_id, named, has_object, no_bytes,
  add_chunk, write_loop, write_file, finish_file, put_as, put, object_stored,
}
use forge_x.Evidence.{NewIds, Registration}
use forge_x.Files.{storage_refused, Files, Upload, get_file, store_upload, Typed}
use forge_x.Files.Attach.{attach_stored, attach}
use forge_x.Files.Clean.{attach-failed}

abbrev repeat : ℕ → ℕ → Text
repeat c zero = []
repeat c (suc n) = c ∷ repeat c n

-- A digest that is the same for all bytes
abbrev constant : Hasher Unit
constant = record { start = tt; update = λ d c. tt; hexdigest = λ d. repeat 48 64 }

abbrev new_object : Text
new_object = codes "0123abcd-0000-4000-8000-0123456789ab"

abbrev photo : Upload
photo = record { filename = codes "a.jpg"; stream = chunk (7 ∷ 8 ∷ 9 ∷ []) ∷ [] }

abbrev names : Text × Text
names = (codes "a.jpg", codes "image/jpeg")

abbrev no_files : Files
no_files = record {
  store = sample;
  files = [];
  locations = [];
  objects = [];
  can_remove = true;
  stopped = false;
}

free : object_stored new_object no_files.objects ≡ ok false
unfolding object_stored is_object_id after_group after_hex is_hex codes has_object exists
free = refl

too_large :
    (attach constant sample_request 9 9 true 2 names new_object sample_item 7 photo no_files).0
    ≡ err (storage_refused file_too_large)
unfolding attach get_file find attach_stored store_upload put put_as finish_file write_file
    write_loop add_chunk no_bytes is_object_id after_group after_hex is_hex codes has_object named
    exists
too_large = refl

attach-failed_example :
    (attach constant sample_request 9 9 true 2 names new_object sample_item 7 photo no_files).1
    ≡ no_files
attach-failed_example =
    attach-failed constant sample_request 9 9 true 2 names new_object sample_item 7 photo no_files
      refl free too_large

abbrev owner : Actor
owner = record { user_id = 7; roles = investigator ∷ [] }

abbrev card : Registration
card = record {
  case_id = 3;
  evidence_type_id = 1;
  description = 76 ∷ [];
  source_details = none;
  size_bytes = none;
  collected_at = 45;
  collected_by = 7;
  collection_site = 83 ∷ [];
  collection_condition = 67 ∷ [];
  seal_number = none;
  hash_value = none;
  hash_source = computed;
  hash_notes = none;
  registered_by = 0;
}

abbrev new_ids : NewIds
new_ids = record { evidence_id = 9; custody_id = 9; hash_id = 9 }

abbrev other_hash : Typed
other_hash = record { hash = some (repeat 49 64); source = computed; notes = none }
