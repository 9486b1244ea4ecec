-- ===== src/Storage/Migrate.antt =====
-- app/storage/migrate.py: every stored file that is not on the target backend is hashed, copied
-- and hashed again, and its new location is recorded. The source and the target are two backends,
-- and `accepts` tells whether the database takes a row.
use forge_x.Shared.{
  ◌==◌, if◌then◌else◌, take, select, ℕ, suc, ◌+◌, max, Bool, true, false, not, ◌&&◌, Option, none,
  some, List, [], ◌∷◌, ◌++◌,
}
use forge_x.Shared.Text.{Text, codes, text_eq, lit, val}
use forge_x.Shared.Outcome.{Outcome, err, ok, ◌>>=◌, ◌>>◌, require}
use forge_x.Store.{failure, Store, Request}
use forge_x.Store.Audit.{record_audit, done}
use forge_x.Storage.{StorageFailure, target_unusable, mismatched_object, is_storage_error}
use forge_x.Storage.Backend.{Backend}

pub record StoredFile : Type 0 where
  pub file_id : ℕ
  pub evidence_id : ℕ
  pub object_id : Text
  pub original_name : Text
  pub media_type : Text
  pub size_bytes : ℕ
  pub sha256 : Text
  pub stored_by : ℕ

pub record FileLocation : Type 0 where
  pub file_id : ℕ
  pub backend : Text
  pub container : Option Text
  pub sha256_before : Option Text
  pub sha256_after : Text
  pub moved_by : ℕ

-- `ORDER BY l.location_id DESC LIMIT 1`, of the rows of a file in the order of their ids
unfoldable pub latest_location : ℕ → List FileLocation → Option FileLocation
latest_location fid [] = none
latest_location fid (l ∷ ls) =
    let later = latest_location fid ls in
    elim later [ some m ↦ some m | none ↦ if l.file_id == fid then some l else none ]

abbrev backend_or_local : Option FileLocation → Text
backend_or_local none = codes "local"
backend_or_local (some l) = l.backend

-- LIST_SQL's column `backend`
unfoldable pub backend_of : List FileLocation → StoredFile → Text
unfolding latest_location
backend_of ls f = backend_or_local (latest_location f.file_id ls)

-- chk_efl_verified
abbrev pub location_valid : FileLocation → Bool
location_valid l = elim l.sha256_before [
  | none ↦ true
  | some before ↦ text_eq before l.sha256_after
]

pub record Tally : Type 0 where
  pub moved : ℕ
  pub already_there : ℕ
  pub skipped : ℕ
  pub failed : ℕ

pub record Migration (T : Type 0) : Type 0 where
  pub target : T
  pub locations : List FileLocation
  pub store : Store
  pub counts : Tally

unfoldable pub count_moved : Bool → Tally → Tally
count_moved true c = record c { moved = suc c.moved }
count_moved false c = record c { already_there = suc c.already_there }

unfoldable pub fail_file : {T : Type 0} → Migration T → Migration T
fail_file m = record m { counts = record m.counts { failed = suc m.counts.failed } }

module _ {T : Type 0} (q : Request) (user_id : ℕ) where
  -- audit.record with outcome Failure, and one more skipped
  unfoldable pub skip_file : StoredFile → Text → Text → Migration T → Migration T
  skip_file f code why m = record m {
    store =
        record_audit q
          record {
            user_id = some user_id;
            action = "evidence.storage_move";
            entity_type = "Evidence";
            entity_ref = some code;
            outcome = failure;
            details = some (val why ∷ []);
          }
          m.store;
    counts = record m.counts { skipped = suc m.counts.skipped };
  }

module _ {S T : Type 0} (from : Backend S) (source : S) (to : Backend T)
    (accepts : FileLocation → Bool) (code_of : ℕ → Text) (q : Request) (user_id : ℕ) where
  -- What is on the target, before it is copied: an object that is there must have the right hash.
  unfoldable pub check_target : StoredFile → T → Outcome StorageFailure Text
  check_target f t = do
    hashed ← to.sha256_of f.object_id t
    require (text_eq hashed.0 f.sha256) mismatched_object
    ok hashed.0

  unfoldable pub new_location : StoredFile → Text → FileLocation
  new_location f after = record {
    file_id = f.file_id;
    backend = to.name;
    container = to.container;
    sha256_before = some f.sha256;
    sha256_after = after;
    moved_by = user_id;
  }

  unfoldable pub row_accepted : StoredFile → Text → Bool
  unfolding new_location
  row_accepted f after = location_valid (new_location f after) && accepts (new_location f after)

  -- `with transaction() as cur:` the location and its audit row
  unfoldable pub record_location : StoredFile → Bool → Text → Migration T → Migration T
  unfolding new_location count_moved
  record_location f copied after m = record m {
    locations = m.locations ++ new_location f after ∷ [];
    store =
        record_audit q
          (done user_id "evidence.storage_move" "Evidence" (code_of f.evidence_id) (
            val from.name
            ∷ lit " -> "
            ∷ val to.name
            ∷ lit ", SHA-256 verified before and after: "
            ∷ val after
            ∷ []))
          m.store;
    counts = count_moved copied m.counts;
  }

  unfoldable pub drop_copy : StoredFile → Migration T → Migration T
  drop_copy f m = record m { target = (to.discard f.object_id m.target).1 }

  -- An object that the target already has
  unfoldable pub keep_present : StoredFile → Migration T → Migration T
  unfolding check_target row_accepted record_location fail_file
  keep_present f m = elim (check_target f m.target) [
    | err e ↦ fail_file m
    | ok after ↦ if row_accepted f after then record_location f false after m else fail_file m
  ]

  -- The copy, once it is written: it is hashed, removed if the hash is wrong or the row refused,
  -- and kept if it could not be read back for a storage error.
  unfoldable pub check_copy :
      StoredFile → Outcome StorageFailure (Text × ℕ) → Migration T → Migration T
  unfolding row_accepted record_location fail_file drop_copy
  check_copy f (err e) m = if is_storage_error e then fail_file m else fail_file (drop_copy f m)
  check_copy f (ok (after, size)) m =
      if not (text_eq after f.sha256)
      then fail_file (drop_copy f m)
      else (if row_accepted f after
          then record_location f true after m
          else fail_file (drop_copy f m))

  unfoldable pub after_put :
      StoredFile → Outcome StorageFailure (Text × ℕ × Text) × T → Migration T → Migration T
  unfolding check_copy fail_file
  after_put f (err e, t) m = fail_file (record m { target = t })
  after_put f (ok answer, t) m = check_copy f (to.sha256_of f.object_id t) (record m { target = t })

  -- `target.put_as` of the source's stream
  unfoldable pub copy_file : ℕ → StoredFile → Migration T → Migration T
  unfolding after_put fail_file
  copy_file max_bytes f m = elim (from.read f.object_id source) [
    | err e ↦ fail_file m
    | ok reads ↦ after_put f (to.store_as f.object_id reads max_bytes m.target) m
  ]

  unfoldable pub place_file :
      ℕ → StoredFile → Outcome StorageFailure Bool → Migration T → Migration T
  unfolding keep_present copy_file fail_file
  place_file max_bytes f (err e) m = fail_file m
  place_file max_bytes f (ok true) m = keep_present f m
  place_file max_bytes f (ok false) m = copy_file max_bytes f m

  -- One file: skipped when its source is unreadable or changed. Another exception than StorageError
  -- there ends the run.
  unfoldable pub move_file :
      (dry_run : Bool) → ℕ → StoredFile → Migration T → Outcome StorageFailure Unit × Migration T
  unfolding place_file skip_file
  move_file dry_run max_bytes f m = elim (from.sha256_of f.object_id source) [
    | err e ↦
        if is_storage_error e
        then (
          ok tt,
          skip_file q user_id f (code_of f.evidence_id)
              (codes "Not moved to " ++ (to.name ++ codes ": source unreadable")) m,
        )
        else (err e, m)
    | ok hashed ↦
        if not (text_eq hashed.0 f.sha256)
        then (
          ok tt,
          skip_file q user_id f (code_of f.evidence_id)
              (codes "Not moved to " ++ (to.name ++ codes ": source hash mismatch")) m,
        )
        else (if dry_run
            then (ok tt, m)
            else (ok tt, place_file max_bytes f (to.exists? f.object_id m.target) m))
  ]

  unfoldable pub move_next :
      (Migration T → Outcome StorageFailure Unit × Migration T)
      → Outcome StorageFailure Unit × Migration T
      → Outcome StorageFailure Unit × Migration T
  move_next following (err e, m) = (err e, m)
  move_next following (ok v, m) = following m

  -- `for f in todo:`
  unfoldable pub move_files :
      (dry_run : Bool)
      → ℕ
      → List StoredFile
      → Migration T
      → Outcome StorageFailure Unit × Migration T
  unfolding move_file move_next
  move_files dry_run max_bytes [] m = (ok tt, m)
  move_files dry_run max_bytes (f ∷ fs) m =
      move_next (move_files dry_run max_bytes fs) (move_file dry_run max_bytes f m)

  unfoldable pub largest : List StoredFile → ℕ
  largest [] = 0
  largest (f ∷ fs) = max f.size_bytes (largest fs)

  abbrev limited : Option ℕ → List StoredFile → List StoredFile
  limited none fs = fs
  limited (some n) fs = take n fs

  -- `[f for f in status() if f["backend"] != target_name][:limit]`
  unfoldable pub todo_of : Option ℕ → List StoredFile → List FileLocation → List StoredFile
  unfolding backend_of
  todo_of limit files ls =
      limited limit (select (λ f. not (text_eq (backend_of ls f) to.name)) files)

  -- `migrate`
  unfoldable pub migrate :
      (file_max_bytes : ℕ)
      → Option ℕ
      → (dry_run : Bool) → List StoredFile
      → Migration T
      → Outcome StorageFailure Unit × Migration T
  unfolding todo_of move_files largest
  migrate file_max_bytes limit dry_run files m =
      let todo = todo_of limit files m.locations in
      let max_bytes = max file_max_bytes (largest todo) + 1 in
      let run = move_files dry_run max_bytes todo m in
      if to.usable m.target then run else (err target_unusable, m)
