-- ===== src/Storage/Moved.antt =====
-- What a migration has done to the locations of the files and to the target, however it ends.
use mathlib.Core.Path.{subst}
use forge_x.Shared.{
  Bool-cases, append_assoc, ℕ, ◌≡◌, refl, ap, ◌∙◌, ◌⊎◌, inl, inr, Bool, true, false, some, List, [],
  ◌∷◌, ◌++◌, arith,
}
use forge_x.Shared.Text.{Text, text_eq, text_eq_iff}
use forge_x.Shared.Tables.{All, All-append}
use forge_x.Shared.Outcome.{Outcome, err, ok, Outcome-cases}
use forge_x.Store.{Request}
use forge_x.Storage.{StorageFailure, is_storage_error}
use forge_x.Storage.Backend.{Backend, IsWriteOnce}
use forge_x.Storage.Migrate.{
  StoredFile, FileLocation, Migration, fail_file, check_target, new_location, row_accepted,
  record_location, drop_copy, keep_present, check_copy, after_put, copy_file, place_file,
}

unfoldable pub Among : StoredFile → List StoredFile → Type 0
Among f [] = ⊥
Among f (g ∷ gs) = (f ≡ g) ⊎ Among f gs

All-mono :
    {A : Type 0} (P Q : A → Type 0) (xs : List A) → ((x : A) → P x → Q x) → All P xs → All Q xs
All-mono P Q [] k v = tt
All-mono P Q (x ∷ xs) k v = (k x v.0, All-mono P Q xs k v.1)

-- A row of evidence_file_locations that a file backs: the source and the target both have its
-- object with the recorded SHA-256, which is the one in the row, before and after.
pub record Backed {S T : Type 0} (from : Backend S) (source : S) (to : Backend T)
    (todo : List StoredFile) (t : T) (l : FileLocation) : Type 0 where
  pub file : StoredFile
  pub among : Among file todo
  pub of_file : l.file_id ≡ file.file_id
  pub on_target : l.backend ≡ to.name
  pub hash_before : l.sha256_before ≡ some file.sha256
  pub hash_after : l.sha256_after ≡ file.sha256
  pub source_size : ℕ
  pub source_hash : from.sha256_of file.object_id source ≡ ok (file.sha256, source_size)
  pub target_size : ℕ
  pub target_hash : to.sha256_of file.object_id t ≡ ok (file.sha256, target_size)

-- The locations are the old ones followed by rows that are backed.
pub record Grown {S T : Type 0} (from : Backend S) (source : S) (to : Backend T)
    (todo : List StoredFile) (old : List FileLocation) (m : Migration T) : Type 0 where
  pub added : List FileLocation
  pub appended : m.locations ≡ old ++ added
  pub backed : All (Backed from source to todo m.target) added

module _ {S T : Type 0} (from : Backend S) (source : S) (to : Backend T)
    (accepts : FileLocation → Bool) (code_of : ℕ → Text) (q : Request) (user_id : ℕ)
    (todo : List StoredFile) (old : List FileLocation) where
  Backed-target :
      (t t' : T)
      → ((oid : Text) (v : Text × ℕ) → to.sha256_of oid t ≡ ok v → to.sha256_of oid t' ≡ ok v)
      → (l : FileLocation) → Backed from source to todo t l
      → Backed from source to todo t' l
  Backed-target t t' keeps l b = record {
    file = b.file;
    among = b.among;
    of_file = b.of_file;
    on_target = b.on_target;
    hash_before = b.hash_before;
    hash_after = b.hash_after;
    source_size = b.source_size;
    source_hash = b.source_hash;
    target_size = b.target_size;
    target_hash = keeps b.file.object_id (b.file.sha256, b.target_size) b.target_hash;
  }

  -- A change of the target, the store or the counts that keeps every hash
  Grown-target :
      (m m' : Migration T)
      → m'.locations ≡ m.locations
      → ((oid : Text) (v : Text × ℕ)
          → to.sha256_of oid m.target ≡ ok v
          → to.sha256_of oid m'.target ≡ ok v)
      → Grown from source to todo old m
      → Grown from source to todo old m'
  Grown-target m m' same keeps g = record {
    added = g.added;
    appended = same ∙ g.appended;
    backed =
        All-mono (Backed from source to todo m.target) (Backed from source to todo m'.target)
          g.added (Backed-target m.target m'.target keeps) g.backed;
  }

  module _ (f : StoredFile) (size : ℕ) (among : Among f todo)
      (fits : from.sha256_of f.object_id source ≡ ok (f.sha256, size)) where
    record_location-Grown :
        (copied : Bool) (after : Text) (size' : ℕ) (m : Migration T)
        → Grown from source to todo old m
        → after ≡ f.sha256
        → to.sha256_of f.object_id m.target ≡ ok (after, size')
        → Grown from source to todo old
            (record_location from source to accepts code_of q user_id f copied after m)
    unfolding record_location new_location
    record_location-Grown copied after size' m g e h = record {
      added = g.added ++ new_location from source to accepts code_of q user_id f after ∷ [];
      appended =
          ap (λ ls. ls ++ new_location from source to accepts code_of q user_id f after ∷ [])
            g.appended
          ∙ append_assoc old g.added _;
      backed = All-append (Backed from source to todo m.target) g.added _ g.backed record {
        file = f;
        among = among;
        of_file = refl;
        on_target = refl;
        hash_before = refl;
        hash_after = e;
        source_size = size;
        source_hash = fits;
        target_size = size';
        target_hash = h ∙ cc e;
      };
    }

    fail_file-Grown :
        (m : Migration T)
        → Grown from source to todo old m
        → Grown from source to todo old (fail_file m)
    unfolding fail_file
    fail_file-Grown m g = Grown-target m (fail_file m) refl (λ oid v h. h) g

    keep_present-Grown :
        (m : Migration T)
        → Grown from source to todo old m
        → Grown from source to todo old (keep_present from source to accepts code_of q user_id f m)
    unfolding keep_present check_target
    keep_present-Grown m g =
        let failed = fail_file-Grown m g in
        elim (Outcome-cases (to.sha256_of f.object_id m.target)) [
          | inl e ↦ subst (Grown from source to todo old) (ground (arith, e.1)) failed
          | inr (v, h) ↦ elim (Bool-cases (text_eq v.0 f.sha256)) [
            | inr t ↦ subst (Grown from source to todo old) (ground (arith, h, t)) failed
            | inl t ↦
                elim (Bool-cases (row_accepted from source to accepts code_of q user_id f v.0)) [
                  | inr r ↦ subst (Grown from source to todo old) (ground (arith, h, t, r)) failed
                  | inl r ↦
                      subst (Grown from source to todo old) (ground (arith, h, t, r))
                        (record_location-Grown false v.0 v.1 m g ((text_eq_iff v.0 f.sha256).0 t) h)
                ]
          ]
        ]

    check_copy-Grown :
        (hashed : Outcome StorageFailure (Text × ℕ)) (m : Migration T)
        → to.sha256_of f.object_id m.target ≡ hashed
        → Grown from source to todo old m
        → Grown from source to todo old (drop_copy from source to accepts code_of q user_id f m)
        → Grown from source to todo old
            (check_copy from source to accepts code_of q user_id f hashed m)
    unfolding check_copy
    check_copy-Grown (err e) m h g dropped = elim (Bool-cases (is_storage_error e)) [
      | inl t ↦ subst (Grown from source to todo old) (ground (arith, t)) (fail_file-Grown m g)
      | inr t ↦
          subst (Grown from source to todo old) (ground (arith, t)) (fail_file-Grown _ dropped)
    ]
    check_copy-Grown (ok (after, size')) m h g dropped =
        elim (Bool-cases (text_eq after f.sha256)) [
          | inr t ↦
              subst (Grown from source to todo old) (ground (arith, t)) (fail_file-Grown _ dropped)
          | inl t ↦
              elim (Bool-cases (row_accepted from source to accepts code_of q user_id f after)) [
                | inr r ↦
                    subst (Grown from source to todo old) (ground (arith, t, r))
                      (fail_file-Grown _ dropped)
                | inl r ↦ subst (Grown from source to todo old) (ground (arith, t, r)) (
                    record_location-Grown true after size' m g ((text_eq_iff after f.sha256).0 t) h)
              ]
        ]

    module _ (law : IsWriteOnce to) where
      copy_file-Grown :
          (max_bytes : ℕ) (m : Migration T)
          → to.exists? f.object_id m.target ≡ ok false
          → Grown from source to todo old m
          → Grown from source to todo old
              (copy_file from source to accepts code_of q user_id max_bytes f m)
      unfolding copy_file after_put drop_copy
      copy_file-Grown max_bytes m free g = elim (Outcome-cases (from.read f.object_id source)) [
        | inl e ↦ subst (Grown from source to todo old) (ground (arith, e.1)) (fail_file-Grown m g)
        | inr (reads, h) ↦
            let put = to.store_as f.object_id reads max_bytes m.target in
            let m' : Migration T = record m { target = put.1 } in
            let g' =
              Grown-target m m' refl
                (λ oid v k. law.store_keeps f.object_id oid reads max_bytes m.target v free k) g in
            let dropped =
              Grown-target m (drop_copy from source to accepts code_of q user_id f m') refl
                (λ oid v k. law.discard_keeps f.object_id oid reads max_bytes m.target v free k)
                g in
            let done = check_copy-Grown (to.sha256_of f.object_id put.1) m' refl g' dropped in
            elim (Outcome-cases put.0) [
              | inl e ↦
                  subst (Grown from source to todo old) (ground (arith, h, e.1))
                    (fail_file-Grown m' g')
              | inr v ↦ subst (Grown from source to todo old) (ground (arith, h, v.1)) done
            ]
      ]

      pub place_file-Grown :
          (max_bytes : ℕ) (found : Outcome StorageFailure Bool) (m : Migration T)
          → to.exists? f.object_id m.target ≡ found
          → Grown from source to todo old m
          → Grown from source to todo old
              (place_file from source to accepts code_of q user_id max_bytes f found m)
      unfolding place_file
      place_file-Grown max_bytes (err e) m h g = fail_file-Grown m g
      place_file-Grown max_bytes (ok true) m h g = keep_present-Grown m g
      place_file-Grown max_bytes (ok false) m h g = copy_file-Grown max_bytes m h g
