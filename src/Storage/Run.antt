-- ===== src/Storage/Run.antt =====
-- A whole migration: the locations it records are backed, a dry run writes none and leaves the
-- target alone, and every file is counted once.
use mathlib.Core.Path.{subst}
use forge_x.Shared.{
  Bool-cases, length, append_nothing, ℕ, suc, ◌+◌, max, ◌≡◌, refl, ◌∙◌, inl, inr, Bool, true, false,
  Option, List, [], ◌∷◌, ◌++◌, arith,
}
use forge_x.Shared.Text.{Text, codes, text_eq, text_eq_iff}
use forge_x.Shared.Outcome.{ok, Outcome-cases}
use forge_x.Store.{Request}
use forge_x.Storage.{is_storage_error}
use forge_x.Storage.Backend.{Backend, IsWriteOnce}
use forge_x.Storage.Migrate.{
  StoredFile, FileLocation, Tally, Migration, count_moved, fail_file, skip_file, record_location,
  drop_copy, keep_present, check_copy, after_put, copy_file, place_file, move_file, move_next,
  move_files, largest, todo_of, migrate,
}
use forge_x.Storage.Moved.{Among, Grown, place_file-Grown}

unfoldable pub total : Tally → ℕ
total c = c.moved + c.already_there + c.skipped + c.failed

Grown-start :
    {S T : Type 0} (from : Backend S) (source : S) (to : Backend T) (todo : List StoredFile)
    (m : Migration T)
    → Grown from source to todo m.locations m
Grown-start from source to todo m = record {
  added = [];
  appended = append_nothing m.locations;
  backed = tt;
}

module _ {S T : Type 0} (from : Backend S) (source : S) (to : Backend T)
    (accepts : FileLocation → Bool) (code_of : ℕ → Text) (q : Request) (user_id : ℕ) where
  module _ (law : IsWriteOnce to) (todo : List StoredFile) (old : List FileLocation) where
    skip_file-Grown :
        (f : StoredFile) (code why : Text) (m : Migration T)
        → Grown from source to todo old m
        → Grown from source to todo old (skip_file q user_id f code why m)
    unfolding skip_file
    skip_file-Grown f code why m g = record {
      added = g.added;
      appended = g.appended;
      backed = g.backed;
    }

    move_file-Grown :
        (dry_run : Bool) (max_bytes : ℕ) (f : StoredFile) (m : Migration T)
        → Among f todo
        → Grown from source to todo old m
        → Grown from source to todo old
            (move_file from source to accepts code_of q user_id dry_run max_bytes f m).1
    unfolding move_file
    move_file-Grown dry_run max_bytes f m among g =
        elim (Outcome-cases (from.sha256_of f.object_id source)) [
          | inl (e, h) ↦ elim (Bool-cases (is_storage_error e)) [
            | inl t ↦ subst (Grown from source to todo old) (ground (arith, h, t)) (
                skip_file-Grown f (code_of f.evidence_id)
                  (codes "Not moved to " ++ (to.name ++ codes ": source unreadable")) m g)
            | inr t ↦ subst (Grown from source to todo old) (ground (arith, h, t)) g
          ]
          | inr (v, h) ↦ elim (Bool-cases (text_eq v.0 f.sha256)) [
            | inr t ↦ subst (Grown from source to todo old) (ground (arith, h, t)) (
                skip_file-Grown f (code_of f.evidence_id)
                  (codes "Not moved to " ++ (to.name ++ codes ": source hash mismatch")) m g)
            | inl t ↦ elim (Bool-cases dry_run) [
              | inl d ↦ subst (Grown from source to todo old) (ground (arith, h, t, d)) g
              | inr d ↦
                  let same = (text_eq_iff v.0 f.sha256).0 t in
                  subst (Grown from source to todo old) (ground (arith, h, t, d)) (
                    place_file-Grown from source to accepts code_of q user_id todo old f v.1 among
                      (h ∙ cc same) law max_bytes (to.exists? f.object_id m.target) m refl g)
            ]
          ]
        ]

    move_files-Grown :
        (dry_run : Bool) (max_bytes : ℕ) (fs : List StoredFile) (m : Migration T)
        → ((f : StoredFile) → Among f fs → Among f todo)
        → Grown from source to todo old m
        → Grown from source to todo old
            (move_files from source to accepts code_of q user_id dry_run max_bytes fs m).1
    unfolding move_files move_next Among
    move_files-Grown dry_run max_bytes [] m sub g = g
    move_files-Grown dry_run max_bytes (f ∷ fs) m sub g =
        let step = move_file from source to accepts code_of q user_id dry_run max_bytes f m in
        let first = move_file-Grown dry_run max_bytes f m (sub f (inl refl)) g in
        let rest = move_files-Grown dry_run max_bytes fs step.1 (λ h k. sub h (inr k)) first in
        elim (Outcome-cases step.0) [
          | inl e ↦ subst (Grown from source to todo old) (ground (arith, e.1)) first
          | inr v ↦ subst (Grown from source to todo old) (ground (arith, v.1)) rest
        ]

  -- Every location that a migration records, however it ends, is of one of the files to move,
  -- whose SHA-256 the source and the target both give at the end, if a write under a free id, and
  -- its removal, leave the other objects of the target as they are.
  pub migrate-Grown :
      IsWriteOnce to
      → (file_max_bytes : ℕ) (limit : Option ℕ) (dry_run : Bool) (files : List StoredFile)
        (m : Migration T)
      → Grown from source to
          (todo_of from source to accepts code_of q user_id limit files m.locations)
          m.locations
          (migrate from source to accepts code_of q user_id file_max_bytes limit dry_run files m).1
  unfolding migrate
  migrate-Grown law file_max_bytes limit dry_run files m =
      let todo = todo_of from source to accepts code_of q user_id limit files m.locations in
      let start = Grown-start from source to todo m in
      let run =
        move_files-Grown law todo m.locations dry_run
          (max file_max_bytes (largest from source to accepts code_of q user_id todo) + 1) todo m
          (λ f h. h) start in
      elim (Bool-cases (to.usable m.target)) [
        | inl t ↦ subst (Grown from source to todo m.locations) (ground (arith, t)) run
        | inr t ↦ subst (Grown from source to todo m.locations) (ground (arith, t)) start
      ]

  move_file-dry :
      (max_bytes : ℕ) (f : StoredFile) (m : Migration T)
      → ((move_file from source to accepts code_of q user_id true max_bytes f m).1.target
          ≡ m.target)
        × ((move_file from source to accepts code_of q user_id true max_bytes f m).1.locations
            ≡ m.locations)
  unfolding move_file skip_file
  move_file-dry max_bytes f m = ground arith

  move_files-dry :
      (max_bytes : ℕ) (fs : List StoredFile) (m : Migration T)
      → ((move_files from source to accepts code_of q user_id true max_bytes fs m).1.target
          ≡ m.target)
        × ((move_files from source to accepts code_of q user_id true max_bytes fs m).1.locations
            ≡ m.locations)
  unfolding move_files move_next
  move_files-dry max_bytes [] m = (refl, refl)
  move_files-dry max_bytes (f ∷ fs) m =
      let step = move_file from source to accepts code_of q user_id true max_bytes f m in
      ground (arith, move_file-dry max_bytes f m, move_files-dry max_bytes fs step.1)

  move_file-counted :
      (max_bytes : ℕ) (f : StoredFile) (m : Migration T)
      → (move_file from source to accepts code_of q user_id false max_bytes f m).0 ≡ ok tt
      → total (move_file from source to accepts code_of q user_id false max_bytes f m).1.counts
        ≡ suc (total m.counts)
  unfolding total move_file skip_file place_file keep_present copy_file after_put check_copy
      fail_file record_location drop_copy count_moved
  move_file-counted max_bytes f m h = ground arith

  -- A dry run leaves the target and the locations as they are.
  pub migrate-dry :
      (file_max_bytes : ℕ) (limit : Option ℕ) (files : List StoredFile) (m : Migration T)
      → ((migrate from source to accepts code_of q user_id file_max_bytes limit true files
            m).1.target
          ≡ m.target)
        × ((migrate from source to accepts code_of q user_id file_max_bytes limit true files
              m).1.locations
            ≡ m.locations)
  unfolding migrate
  migrate-dry file_max_bytes limit files m =
      let todo = todo_of from source to accepts code_of q user_id limit files m.locations in
      let run =
        move_files-dry
          (max file_max_bytes (largest from source to accepts code_of q user_id todo) + 1) todo m in
      elim (Bool-cases (to.usable m.target)) [
        | inl t ↦ (ground (arith, t, run.0), ground (arith, t, run.1))
        | inr t ↦ (ground (arith, t), ground (arith, t))
      ]

  move_files-counted :
      (max_bytes : ℕ) (fs : List StoredFile) (m : Migration T)
      → (move_files from source to accepts code_of q user_id false max_bytes fs m).0 ≡ ok tt
      → total (move_files from source to accepts code_of q user_id false max_bytes fs m).1.counts
        ≡ total m.counts + length fs
  unfolding move_files move_next
  move_files-counted max_bytes [] m h = omega arith
  move_files-counted max_bytes (f ∷ fs) m h =
      let step = move_file from source to accepts code_of q user_id false max_bytes f m in
      ground (arith, move_file-counted max_bytes f m, move_files-counted max_bytes fs step.1)

  -- A migration that runs to its end and is not dry has counted every file to move exactly once.
  pub migrate-counted :
      (file_max_bytes : ℕ) (limit : Option ℕ) (files : List StoredFile) (m : Migration T)
      → (migrate from source to accepts code_of q user_id file_max_bytes limit false files m).0
        ≡ ok tt
      → total
          (migrate from source to accepts code_of q user_id file_max_bytes limit false files
            m).1.counts
        ≡ total m.counts
          + length (todo_of from source to accepts code_of q user_id limit files m.locations)
  unfolding migrate
  migrate-counted file_max_bytes limit files m h =
      let todo = todo_of from source to accepts code_of q user_id limit files m.locations in
      ground (
        arith,
        move_files-counted
            (max file_max_bytes (largest from source to accepts code_of q user_id todo) + 1) todo m,
      )
