-- ===== src/Storage/Local.antt =====
-- LocalStorage's promises: written once, read back with the same SHA-256, and no trace of a write
-- that failed.

use forge_x.Shared.{
  Bool-cases, Option-cases, length, find, exists, delete_where, ℕ, ◌≤◌, ◌<◌, ◌≡◌, refl, sym, ap,
  ◌∙◌, ◌≢◌, inl, inr, Bool, true, false, some, List, [], ◌∷◌, ◌++◌, arith,
}
use forge_x.Shared.Text.{Text, text_eq, text_eq_iff}
use forge_x.Shared.Outcome.{Outcome, err, ok, Outcome-cases}
use forge_x.Storage.{
  Hasher, IsIncremental, StorageFailure, invalid_identifier, object_exists, Read, StoredObject,
  Objects, is_object_id, named, has_object, remove_object, Writing, write_file, finish_file, put_as,
  open_read, sha256, object_stored, discard_unrecorded,
}
use forge_x.Storage.Digest.{write_file-IsDigest, hash_loop-reads_of}

find-append_fresh :
    {A : Type 0} (p : A → Bool) (xs : List A) (x : A)
    → exists p xs ≡ false
    → p x ≡ true
    → find p (xs ++ x ∷ []) ≡ some x
unfolding find exists
find-append_fresh p [] x h k = ground arith
find-append_fresh p (y ∷ ys) x h k = ground (arith, find-append_fresh p ys x)

find-append_other :
    {A : Type 0} (p : A → Bool) (xs : List A) (x : A)
    → p x ≡ false
    → find p (xs ++ x ∷ []) ≡ find p xs
unfolding find
find-append_other p [] x k = ground arith
find-append_other p (y ∷ ys) x k = ground (arith, find-append_other p ys x k)

find-append_found :
    {A : Type 0} (p : A → Bool) (xs : List A) (x : A) {a : A}
    → find p xs ≡ some a
    → find p (xs ++ x ∷ []) ≡ some a
unfolding find
find-append_found p [] x h = cc
find-append_found p (y ∷ ys) x {a} h = ground (arith, find-append_found p ys x {a = a})

delete_where-none :
    {A : Type 0} (p : A → Bool) (xs : List A) → exists p xs ≡ false → delete_where p xs ≡ xs
unfolding delete_where exists
delete_where-none p [] h = refl
delete_where-none p (y ∷ ys) h = ground (arith, delete_where-none p ys)

exists-delete_where :
    {A : Type 0} (p : A → Bool) (xs : List A) → exists p (delete_where p xs) ≡ false
unfolding delete_where exists
exists-delete_where p [] = refl
exists-delete_where p (y ∷ ys) = ground (arith, exists-delete_where p ys)

find-delete_where_other :
    {A : Type 0} (p w : A → Bool) (xs : List A)
    → ((x : A) → w x ≡ true → p x ≡ false)
    → find p (delete_where w xs) ≡ find p xs
unfolding delete_where find
find-delete_where_other p w [] k = refl
find-delete_where_other p w (y ∷ ys) k = ground (arith, k y, find-delete_where_other p w ys k)

pub text_eq_refl : (t : Text) → text_eq t t ≡ true
text_eq_refl t = (text_eq_iff t t).1 refl

pub named_other :
    (oid other : Text) (o : StoredObject) → other ≢ oid → named oid o ≡ true → named other o ≡ false
unfolding named
named_other oid other o h k =
    ground (arith, h, (text_eq_iff o.object_id oid).0, (text_eq_iff o.object_id other).0)

delete_where-append :
    {A : Type 0} (p : A → Bool) (xs : List A) (x : A)
    → p x ≡ true
    → delete_where p (xs ++ x ∷ []) ≡ delete_where p xs
unfolding delete_where
delete_where-append p [] x k = ground (arith, k)
delete_where-append p (y ∷ ys) x k = ground (arith, delete_where-append p ys x k)

pub remove_object-absent :
    (oid : Text) (objects : Objects)
    → has_object oid objects ≡ false
    → remove_object oid objects ≡ objects
unfolding remove_object has_object
remove_object-absent oid objects h = delete_where-none (named oid) objects h

module _ {D : Type 0} (H : Hasher D) where
  put_as-valid :
      (oid : Text) (reads : List Read) (max_bytes : ℕ) (objects : Objects)
      → is_object_id oid ≡ true
      → put_as H oid reads max_bytes objects
        ≡ finish_file H oid objects (write_file H oid reads max_bytes objects)
  unfolding put_as
  put_as-valid oid reads max_bytes objects v = ground (arith, v)

  put_as-invalid :
      (oid : Text) (reads : List Read) (max_bytes : ℕ) (objects : Objects)
      → is_object_id oid ≡ false
      → put_as H oid reads max_bytes objects ≡ (err invalid_identifier, objects)
  unfolding put_as
  put_as-invalid oid reads max_bytes objects v = ground (arith, v)

  finish_file-failed :
      (oid : Text) (objects : Objects) (r : Outcome StorageFailure (Writing D)) {e : StorageFailure}
      → (finish_file H oid objects r).0 ≡ err e
      → (finish_file H oid objects r).1 ≡ remove_object oid objects
  unfolding finish_file
  finish_file-failed oid objects (err x) h = refl
  finish_file-failed oid objects (ok w) h = cc

  finish_file-returned :
      (oid : Text) (objects : Objects) (r : Outcome StorageFailure (Writing D))
      {v : Text × ℕ × Text}
      → (finish_file H oid objects r).0 ≡ ok v
      → (w : Writing D) × (r ≡ ok w) × (v ≡ (oid, w.size, H.hexdigest w.digest))
  unfolding finish_file
  finish_file-returned oid objects (err x) h = cc
  finish_file-returned oid objects (ok w) h = (w, refl, cc)

  -- A write that fails, under an id that no object has, leaves no object behind.
  pub put_as-failed :
      (oid : Text) (reads : List Read) (max_bytes : ℕ) (objects : Objects) {e : StorageFailure}
      → (put_as H oid reads max_bytes objects).0 ≡ err e
      → has_object oid objects ≡ false
      → (put_as H oid reads max_bytes objects).1 ≡ objects
  put_as-failed oid reads max_bytes objects h fresh = elim (Bool-cases (is_object_id oid)) [
    | inl v ↦
        let same = put_as-valid oid reads max_bytes objects v in
        let gone =
          finish_file-failed oid objects (write_file H oid reads max_bytes objects)
            (ap (λ p. p.0) (sym same) ∙ h) in
        ap (λ p. p.1) same ∙ gone ∙ remove_object-absent oid objects fresh
    | inr v ↦ ap (λ p. p.1) (put_as-invalid oid reads max_bytes objects v)
  ]

  -- What an accepted write has done: the id was free, and one read-only object was appended.
  pub put_as-appended :
      (oid : Text) (reads : List Read) (max_bytes : ℕ) (objects : Objects) {v : Text × ℕ × Text}
      → (put_as H oid reads max_bytes objects).0 ≡ ok v
      → (is_object_id oid ≡ true)
        × ((w : Writing D) × (write_file H oid reads max_bytes objects ≡ ok w)
            × (v ≡ (oid, w.size, H.hexdigest w.digest))
            × ((put_as H oid reads max_bytes objects).1
                ≡ objects ++ record { object_id = oid; bytes = w.written; read_only = true } ∷ []))
  unfolding finish_file
  put_as-appended oid reads max_bytes objects h = elim (Bool-cases (is_object_id oid)) [
    | inl v ↦
        let same = put_as-valid oid reads max_bytes objects v in
        let done =
          finish_file-returned oid objects (write_file H oid reads max_bytes objects)
            (ap (λ p. p.0) (sym same) ∙ h) in
        (
          v,
          (
            done.0,
            done.1,
            done.2,
            ap (λ p. p.1) same ∙ ap (λ r. (finish_file H oid objects r).1) done.1,
          ),
        )
    | inr v ↦ absurd (ground (arith, ap (λ p. p.0) (put_as-invalid oid reads max_bytes objects v)))
  ]

  -- An object that is there already: the write raises, and its `except` clause removes the object.
  pub put_as-existing :
      (oid : Text) (reads : List Read) (max_bytes : ℕ) (objects : Objects)
      → is_object_id oid ≡ true
      → has_object oid objects ≡ true
      → (put_as H oid reads max_bytes objects ≡ (err object_exists, remove_object oid objects))
        × (has_object oid (put_as H oid reads max_bytes objects).1 ≡ false)
  unfolding put_as finish_file write_file remove_object has_object
  put_as-existing oid reads max_bytes objects v h =
      ground (arith, exists-delete_where (named oid) objects)

module _ {D : Type 0} (H : Hasher D) (law : IsIncremental H) where
  sha256-found :
      (oid : Text) (objects : Objects) (o : StoredObject)
      → is_object_id oid ≡ true
      → find (named oid) objects ≡ some o
      → sha256 H oid objects ≡ ok (H.hexdigest (H.update H.start o.bytes), length o.bytes)
  unfolding sha256 open_read
  sha256-found oid objects o v found = ground (arith, v, found, hash_loop-reads_of H law o.bytes)

  sha256-same :
      {a b : Text} {m n : ℕ}
      → a ≡ b
      → m ≡ n
      → ◌≡◌ {A = Outcome StorageFailure (Text × ℕ)} (ok (a, m)) (ok (b, n))
  sha256-same h k = cc

  -- An accepted write answers with its id, size and SHA-256 under the limit, reading the object
  -- back gives the same SHA-256 and size, and every other object is as it was.
  pub put_as-sha256 :
      (oid : Text) (reads : List Read) (max_bytes : ℕ) (objects : Objects) {v : Text × ℕ × Text}
      → (put_as H oid reads max_bytes objects).0 ≡ ok v
      → (v.0 ≡ oid)
        × (0 < v.1)
        × (v.1 ≤ max_bytes)
        × (has_object oid objects ≡ false)
        × (sha256 H oid (put_as H oid reads max_bytes objects).1 ≡ ok (v.2, v.1))
        × ((other : Text)
            → other ≢ oid
            → find (named other) (put_as H oid reads max_bytes objects).1
              ≡ find (named other) objects)
  unfolding has_object
  put_as-sha256 oid reads max_bytes objects {v} h =
      let a = put_as-appended H oid reads max_bytes objects h in
      let w = a.1.0 in
      let f = write_file-IsDigest H law oid reads max_bytes objects a.1.1 in
      let new : StoredObject = record { object_id = oid; bytes = w.written; read_only = true } in
      let self : named oid new ≡ true = unfold named in text_eq_refl oid in
      let found = find-append_fresh (named oid) objects new f.1 self in
      let e = a.1.2 in
      let hash : sha256 H oid (objects ++ new ∷ []) ≡ ok (v.2, v.1) =
        sha256-found oid (objects ++ new ∷ []) new a.0 found
        ∙ sha256-same (cc (f.0.digest_of, e)) (cc (f.0.size_of, e)) in
      (
        cc e,
        ground (arith, e, f.2),
        ground (arith, e, f.0.within),
        f.1,
        ap (sha256 H oid) a.1.3 ∙ hash,
        λ other k.
            ap (find (named other)) a.1.3
            ∙ find-append_other (named other) objects new (named_other oid other new k self),
      )

module _ {D : Type 0} (H : Hasher D) where
  sha256-append :
      (other : Text) (objects : Objects) (new : StoredObject) {v : Text × ℕ}
      → sha256 H other objects ≡ ok v
      → sha256 H other (objects ++ new ∷ []) ≡ ok v
  unfolding sha256 open_read
  sha256-append other objects new h = elim (Option-cases (find (named other) objects)) [
    | inr found ↦ ground (arith, find-append_found (named other) objects new found.1)
    | inl missing ↦ absurd (ground (arith, missing))
  ]

  discard-removed :
      (oid : Text) (objects : Objects)
      → is_object_id oid ≡ true
      → (discard_unrecorded oid objects).1 ≡ remove_object oid objects
  unfolding discard_unrecorded
  discard-removed oid objects v = ground (arith, v)

  stored_absent :
      (oid : Text) (objects : Objects)
      → object_stored oid objects ≡ ok false
      → (is_object_id oid ≡ true) × (has_object oid objects ≡ false)
  unfolding object_stored
  stored_absent oid objects h = ground arith

  -- Writing under a free id keeps what can be hashed as it was.
  pub put_as-keeps :
      (oid other : Text) (reads : List Read) (max_bytes : ℕ) (objects : Objects) (v : Text × ℕ)
      → object_stored oid objects ≡ ok false
      → sha256 H other objects ≡ ok v
      → sha256 H other (put_as H oid reads max_bytes objects).1 ≡ ok v
  put_as-keeps oid other reads max_bytes objects v free h =
      elim (Outcome-cases (put_as H oid reads max_bytes objects).0) [
        | inl failed ↦
            ap (sha256 H other) (
              put_as-failed H oid reads max_bytes objects failed.1
                (stored_absent oid objects free).1)
            ∙ h
        | inr done ↦
            ap (sha256 H other) (put_as-appended H oid reads max_bytes objects done.1).1.3
            ∙ sha256-append other objects _ h
      ]

  -- Discarding what was written under a free id leaves the objects that there were.
  pub discard-put_as :
      (oid : Text) (reads : List Read) (max_bytes : ℕ) (objects : Objects)
      → object_stored oid objects ≡ ok false
      → (discard_unrecorded oid (put_as H oid reads max_bytes objects).1).1 ≡ objects
  unfolding remove_object named
  discard-put_as oid reads max_bytes objects free =
      let f = stored_absent oid objects free in
      let back = remove_object-absent oid objects f.1 in
      elim (Outcome-cases (put_as H oid reads max_bytes objects).0) [
        | inl failed ↦
            ap (λ s. (discard_unrecorded oid s).1)
              (put_as-failed H oid reads max_bytes objects failed.1 f.1)
            ∙ discard-removed oid objects f.0
            ∙ back
        | inr done ↦
            ap (λ s. (discard_unrecorded oid s).1)
              (put_as-appended H oid reads max_bytes objects done.1).1.3
            ∙ discard-removed oid _ f.0
            ∙ delete_where-append (named oid) objects _ (text_eq_refl oid)
            ∙ back
      ]
