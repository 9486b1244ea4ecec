-- ===== src/Storage/Digest.antt =====
-- The two loops of app/storage over the chunks of a file: what is hashed while it is written, and
-- what is hashed when it is read again.
use mathlib.Core.Path.{subst}
use forge_x.Shared.{
  ltb, ◌==◌, Bool-cases, length, take, drop, length-append, ℕ, zero, suc, ◌+◌, ◌≤◌, ◌<◌, ◌≡◌, refl,
  sym, ap, inl, inr, false, not, List, [], ◌∷◌, ◌++◌, map, arith,
}
use forge_x.Shared.Text.{Text}
use forge_x.Shared.Outcome.{ok, ◌>>=◌, bind-ok, ◌>>◌, require, require-then}
use forge_x.Storage.{
  Bytes, Hasher, IsIncremental, empty_file, object_exists, Read, chunk, broken, Objects, chunk_size,
  has_object, Writing, no_bytes, add_chunk, write_loop, write_file, chunks, reads_of, hash_loop,
}

module _ {A : Type 0} where
  pub take-drop : (n : ℕ) (xs : List A) → take n xs ++ drop n xs ≡ xs
  take-drop zero xs = refl
  take-drop (suc n) [] = refl
  take-drop (suc n) (x ∷ xs) = cc (take-drop n xs)

  pub length-drop_le : (n : ℕ) (xs : List A) → length (drop n xs) ≤ length xs
  length-drop_le zero xs = omega arith
  length-drop_le (suc n) [] = omega arith
  length-drop_le (suc n) (x ∷ xs) = omega (arith, length-drop_le n xs)

unfoldable pub joined : List Bytes → Bytes
joined [] = []
joined (c ∷ cs) = c ++ joined cs

-- As much fuel as there are bytes is enough to read all of a file, in chunks of any positive size.
pub joined-chunks :
    (fuel n : ℕ) (bytes : Bytes)
    → 0 < n
    → length bytes ≤ fuel
    → joined (chunks fuel n bytes) ≡ bytes
unfolding chunks joined
joined-chunks zero n [] hn h = refl
joined-chunks zero n (b ∷ bytes) hn h = absurd (omega arith)
joined-chunks (suc fuel) n [] hn h = refl
joined-chunks (suc fuel) zero (b ∷ bytes) hn h = absurd (omega arith)
joined-chunks (suc fuel) (suc m) (b ∷ bytes) hn h =
    let left =
      joined-chunks fuel (suc m) (drop m bytes) hn (omega (arith, length-drop_le m bytes)) in
    cc (left, take-drop m bytes)

-- What the writing loop keeps: the digest is that of the bytes written, within the limit.
pub record IsDigest {D : Type 0} (H : Hasher D) (max_bytes : ℕ) (w : Writing D) : Type 0 where
  pub digest_of : w.digest ≡ H.update H.start w.written
  pub size_of : w.size ≡ length w.written
  pub within : w.size ≤ max_bytes

module _ {D : Type 0} (H : Hasher D) (law : IsIncremental H) where
  no_bytes-IsDigest : (max_bytes : ℕ) → IsDigest H max_bytes (no_bytes H)
  unfolding no_bytes
  no_bytes-IsDigest max_bytes = record {
    digest_of = sym (law.update_nothing H.start);
    size_of = refl;
    within = omega arith;
  }

  add_chunk-IsDigest :
      (max_bytes : ℕ) (c : Bytes) (w : Writing D)
      → IsDigest H max_bytes w
      → ltb max_bytes (w.size + length c) ≡ false
      → IsDigest H max_bytes (add_chunk H c w)
  unfolding add_chunk
  add_chunk-IsDigest max_bytes c w h k = record {
    digest_of = cc (h.digest_of, law.update-append H.start w.written c);
    size_of = omega (arith, h.size_of, length-append w.written c);
    within = ground arith;
  }

  write_loop-IsDigest :
      (max_bytes : ℕ) (reads : List Read) (w : Writing D) {w' : Writing D}
      → IsDigest H max_bytes w
      → write_loop H max_bytes reads w ≡ ok w'
      → IsDigest H max_bytes w'
  unfolding write_loop
  write_loop-IsDigest max_bytes [] w h e = subst (IsDigest H max_bytes) (cc) h
  write_loop-IsDigest max_bytes (broken ∷ reads) w h e = cc
  write_loop-IsDigest max_bytes (chunk [] ∷ reads) w h e = subst (IsDigest H max_bytes) (cc) h
  write_loop-IsDigest max_bytes (chunk (b ∷ c) ∷ reads) w h e =
      elim (Bool-cases (ltb max_bytes (w.size + length (b ∷ c)))) [
        | inl t ↦ absurd (ground arith)
        | inr t ↦
            write_loop-IsDigest max_bytes reads (add_chunk H (b ∷ c) w)
              (add_chunk-IsDigest max_bytes (b ∷ c) w h t) (ground arith)
      ]

  -- A file that `put_as` has written: its digest and size are those of its bytes.
  pub write_file-IsDigest :
      (oid : Text) (reads : List Read) (max_bytes : ℕ) (objects : Objects) {w : Writing D}
      → write_file H oid reads max_bytes objects ≡ ok w
      → IsDigest H max_bytes w × (has_object oid objects ≡ false) × (0 < w.size)
  unfolding write_file
  write_file-IsDigest oid reads max_bytes objects e =
      let fresh =
        require-then (not (has_object oid objects)) object_exists
          (write_loop H max_bytes reads (no_bytes H) >>= λ w.
            require (not (w.size == 0)) empty_file >> ok w)
          e in
      let loop =
        bind-ok (write_loop H max_bytes reads (no_bytes H))
          (λ w. require (not (w.size == 0)) empty_file >> ok w) fresh.1 in
      let filled = require-then (not (loop.0.size == 0)) empty_file (ok loop.0) loop.2 in
      (
        subst (IsDigest H max_bytes) (cc)
            (write_loop-IsDigest max_bytes reads (no_bytes H) (no_bytes-IsDigest max_bytes) loop.1),
        ground arith,
        ground arith,
      )

  hash_loop-chunks :
      (fuel n : ℕ) (bytes : Bytes) (d : D) (size : ℕ)
      → 0 < n
      → length bytes ≤ fuel
      → hash_loop H (map chunk (chunks fuel n bytes)) d size
        ≡ ok (H.hexdigest (H.update d bytes), size + length bytes)
  unfolding chunks hash_loop
  hash_loop-chunks zero n [] d size hn h = ground (arith, law.update_nothing d)
  hash_loop-chunks zero n (b ∷ bytes) d size hn h = absurd (omega arith)
  hash_loop-chunks (suc fuel) n [] d size hn h = ground (arith, law.update_nothing d)
  hash_loop-chunks (suc fuel) zero (b ∷ bytes) d size hn h = absurd (omega arith)
  hash_loop-chunks (suc fuel) (suc m) (b ∷ bytes) d size hn h =
      let first = b ∷ take m bytes in
      let ih =
        hash_loop-chunks fuel (suc m) (drop m bytes) (H.update d first) (size + length first) hn
          (omega (arith, length-drop_le m bytes)) in
      let parts = take-drop m bytes in
      let len = length-append first (drop m bytes) in
      let upd = law.update-append d first (drop m bytes) in
      ground (arith, ih, parts, len, upd, ap length parts)

  -- Reading a stored object in chunks hashes exactly its bytes.
  pub hash_loop-reads_of :
      (bytes : Bytes)
      → hash_loop H (reads_of bytes) H.start 0
        ≡ ok (H.hexdigest (H.update H.start bytes), length bytes)
  unfolding reads_of chunk_size
  hash_loop-reads_of bytes = ground (
    arith,
    hash_loop-chunks (length bytes) chunk_size bytes H.start 0 (omega arith) (omega arith),
  )
