-- ===== src/Integrity/Tests.antt =====
-- Instances of the theorems about reference hashes.
use forge_x.Shared.{find, exists, all, count, ℕ, zero, suc, ◌≡◌, refl, none, some, [], ◌∷◌, arith}
use forge_x.Shared.Text.{Text, text_eq}
use forge_x.Shared.Outcome.{Outcome, err, ok}
use forge_x.Shared.Tables.{Distinct}
use forge_x.Store.{computed, stored_file, HashResult, failed, HashRow, Store, Request}
use forge_x.Store.Roles.{evidence_by_id}
use forge_x.Store.Audit.{record_audit}
use forge_x.Store.Sample.{sample, sample_request}
use forge_x.Integrity.{
  IntegrityError, is_hex, is_sha256, supersedes, superseded, is_current, current_hash,
  hash_row_valid, same_evidence, insert_hash, HashEntry, original_row, record_original_hash, Check,
  verification_valid, set_result, check_row, verify, corrected_row, correct_hash,
}
use forge_x.Integrity.Reference.{OneCurrent}
use forge_x.Integrity.Table.{HashTable}
use forge_x.Integrity.Services.{
  Checked, record_original_hash-HashTable, correct_hash-HashTable, verify-Checked,
}

abbrev repeat : ℕ → ℕ → Text
repeat c zero = []
repeat c (suc n) = c ∷ repeat c n

abbrev digest : ℕ → HashEntry
digest c = record {
  evidence_id = 5;
  user_id = 7;
  hash_value = repeat c 64;
  source = computed;
  notes = none;
}

abbrev state_of : Outcome IntegrityError Store → Store
state_of (ok s) = s
state_of (err e) = sample

abbrev request : ℕ → Request
request n = record sample_request { new_id = n }

first : Store
first = state_of (record_original_hash (request 1) (digest 48) sample)

second : Store
second = state_of (correct_hash (request 2) (digest 49) (82 ∷ []) first)

first_runs : record_original_hash (request 1) (digest 48) sample ≡ ok first
unfolding first record_original_hash evidence_by_id find current_hash insert_hash same_evidence
    hash_row_valid exists is_sha256 is_hex all original_row
first_runs = refl

second_runs : correct_hash (request 2) (digest 49) (82 ∷ []) first ≡ ok second
unfolding first second record_original_hash evidence_by_id find current_hash insert_hash
    same_evidence hash_row_valid exists is_sha256 is_hex all original_row correct_hash is_current
    superseded supersedes corrected_row record_audit text_eq
second_runs = refl

sample-HashTable : HashTable 1 sample.hashes
unfolding OneCurrent Distinct count
sample-HashTable = record { one = λ eid. omega arith; keys = tt; below = tt }

first-HashTable :
    HashTable 2 first.hashes
    × (current_hash first.hashes 5 ≡ some (original_row (request 1) (digest 48)))
first-HashTable =
    record_original_hash-HashTable (request 1) sample (digest 48) first first_runs sample-HashTable

correct_hash-HashTable_example :
    HashTable 3 second.hashes
    × ((c : HashRow) × (current_hash first.hashes 5 ≡ some c)
        × (current_hash second.hashes 5 ≡ some (corrected_row (request 2) (digest 49) (82 ∷ []) c)))
correct_hash-HashTable_example =
    correct_hash-HashTable (request 2) first (digest 49) (82 ∷ []) second second_runs
      first-HashTable.0

abbrev check : Check
check = record {
  evidence_id = 5;
  user_id = 7;
  computed_hash = repeat 49 64;
  method = stored_file;
  sample_file_name = some (70 ∷ []);
  sample_size = none;
  notes = none;
}

abbrev checked_of :
    Outcome IntegrityError ((HashResult × Text) × Store) → (HashResult × Text) × Store
checked_of (ok r) = r
checked_of (err e) = ((failed, []), sample)

after_check : (HashResult × Text) × Store
after_check = checked_of (verify (request 3) check second)

check_runs : verify (request 3) check second ≡ ok after_check
unfolding first second record_original_hash evidence_by_id find current_hash insert_hash
    same_evidence hash_row_valid exists is_sha256 is_hex all original_row correct_hash is_current
    superseded supersedes corrected_row record_audit after_check verify set_result check_row
    verification_valid text_eq
check_runs = refl

verify-Checked_example : Checked (request 3) check second after_check
verify-Checked_example =
    verify-Checked (request 3) second check after_check check_runs
      correct_hash-HashTable_example.0.keys
