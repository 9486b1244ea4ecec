-- ===== src/Integrity/Services.antt =====
-- What record_original_hash, correct_hash and verify of app/integrity/services.py guarantee.
use mathlib.Core.Path.{subst}
use forge_x.Shared.{
  ◌==◌, Option-cases, find, suc, ◌≡◌, refl, sym, ◌≢◌, inl, inr, true, false, none, some, [], ◌∷◌,
  ◌++◌, arith,
}
use forge_x.Shared.Text.{Text, text_eq, text_eq_iff, or_null?}
use forge_x.Shared.Outcome.{ok}
use forge_x.Shared.Tables.{Distinct, find-Distinct}
use forge_x.Store.{HashResult, verified, failed, Evidence, HashRow, Store, Request}
use forge_x.Store.Roles.{evidence_by_id}
use forge_x.Store.Audit.{record_audit}
use forge_x.Integrity.{
  is_sha256, is_current, current_hash, hash_row_valid, insert_hash, HashEntry, original_row,
  record_original_hash, Check, set_result, check_row, verify_against, verify, corrected_row,
  supersede, correct_hash,
}
use forge_x.Integrity.Table.{HashTable, append_first, append_next}

-- A first hash that was accepted.
pub record Recorded (q : Request) (p : HashEntry) (s s' : Store) : Type 0 where
  pub absent : current_hash s.hashes p.evidence_id ≡ none
  pub well_formed : is_sha256 p.hash_value ≡ true
  pub appended : s'.hashes ≡ s.hashes ++ original_row q p ∷ []

-- A correction that was accepted: the hash it supersedes differs from the new one.
pub record Superseded (q : Request) (p : HashEntry) (reason : Text) (s s' : Store) : Type 0 where
  pub current : HashRow
  pub found : current_hash s.hashes p.evidence_id ≡ some current
  pub differs : text_eq current.hash_value p.hash_value ≡ false
  pub well_formed : is_sha256 p.hash_value ≡ true
  pub appended : s'.hashes ≡ s.hashes ++ corrected_row q p reason current ∷ []

-- A verification that was stored: it compares with the current hash of the item.
pub record Checked (q : Request) (p : Check) (s : Store) (r : (HashResult × Text) × Store)
    : Type 0 where
  pub current : HashRow
  pub found : current_hash s.hashes p.evidence_id ≡ some current
  pub reference : r.0.1 ≡ current.hash_value
  pub matches : p.computed_hash ≡ current.hash_value → r.0.0 ≡ verified
  pub differs : p.computed_hash ≢ current.hash_value → r.0.0 ≡ failed
  pub appended :
      r.1.verifications
      ≡ s.verifications
        ++ record {
          verification_id = q.new_id;
          hash_id = current.hash_id;
          computed_hash = p.computed_hash;
          result = r.0.0;
          method = p.method;
          sample_file_name = p.sample_file_name;
          sample_size_bytes = p.sample_size;
          notes = or_null? p.notes;
          verified_by = p.user_id;
        }
          ∷ []
  pub unchanged : r.1.hashes ≡ s.hashes

supersede-Superseded :
    (q : Request) (p : HashEntry) (reason : Text) (s s' : Store) (item : Evidence) (c : HashRow)
    → current_hash s.hashes p.evidence_id ≡ some c
    → supersede q p reason s item c ≡ ok s'
    → Superseded q p reason s s'
unfolding supersede insert_hash record_audit hash_row_valid corrected_row
supersede-Superseded q p reason s s' item c f h = record {
  current = c;
  found = f;
  differs = ground arith;
  well_formed = ground arith;
  appended = ground arith;
}

verify_against-Checked :
    (q : Request) (p : Check) (s : Store) (r : (HashResult × Text) × Store) (item : Evidence)
    (c : HashRow)
    → current_hash s.hashes p.evidence_id ≡ some c
    → find (λ h. h.hash_id == c.hash_id) s.hashes ≡ some c
    → verify_against q p s item c ≡ ok r
    → Checked q p s r
unfolding verify_against set_result record_audit check_row
verify_against-Checked q p s r item c f k h = record {
  current = c;
  found = f;
  reference = ground arith;
  matches = λ same. ground (arith, same, text_eq_iff p.computed_hash c.hash_value);
  differs = λ other. ground (arith, other, text_eq_iff p.computed_hash c.hash_value);
  appended = ground arith;
  unchanged = ground arith;
}

module _ (q : Request) (s : Store) where
  -- `record_original_hash` accepts a first hash only, well formed, and appends exactly its row.
  pub record_original_hash-Recorded :
      (p : HashEntry) (s' : Store) → record_original_hash q p s ≡ ok s' → Recorded q p s s'
  unfolding record_original_hash insert_hash record_audit hash_row_valid original_row
  record_original_hash-Recorded p s' h = elim (Option-cases (evidence_by_id s p.evidence_id)) [
    | inl e ↦ absurd (ground arith)
    | inr f ↦
        let e = f.1 in
        record { absent = ground arith; well_formed = ground arith; appended = ground arith }
  ]

  -- `correct_hash` accepts a different hash only, and appends a row that supersedes the current one.
  pub correct_hash-Superseded :
      (p : HashEntry) (reason : Text) (s' : Store)
      → correct_hash q p reason s ≡ ok s'
      → Superseded q p reason s s'
  unfolding correct_hash
  correct_hash-Superseded p reason s' h = elim (Option-cases (evidence_by_id s p.evidence_id)) [
    | inl e ↦ absurd (ground arith)
    | inr f ↦ elim (Option-cases (current_hash s.hashes p.evidence_id)) [
      | inl e ↦ absurd (ground (arith, f.1))
      | inr c ↦ supersede-Superseded q p reason s s' f.0 c.0 c.1 (ground (arith, f.1, c.1))
    ]
  ]

  -- A first hash keeps the table sound and becomes the item's current hash.
  pub record_original_hash-HashTable :
      (p : HashEntry) (s' : Store)
      → record_original_hash q p s ≡ ok s'
      → HashTable q.new_id s.hashes
      → HashTable (suc q.new_id) s'.hashes
        × (current_hash s'.hashes p.evidence_id ≡ some (original_row q p))
  unfolding original_row
  record_original_hash-HashTable p s' h v =
      let r = record_original_hash-Recorded p s' h in
      subst
        (λ hs.
          HashTable (suc q.new_id) hs × (current_hash hs p.evidence_id ≡ some (original_row q p)))
        (sym r.appended) (append_first q.new_id s.hashes (original_row q p) refl refl r.absent v)

  -- A correction keeps the table sound and its row becomes the item's current hash.
  pub correct_hash-HashTable :
      (p : HashEntry) (reason : Text) (s' : Store)
      → correct_hash q p reason s ≡ ok s'
      → HashTable q.new_id s.hashes
      → HashTable (suc q.new_id) s'.hashes
        × ((c : HashRow) × (current_hash s.hashes p.evidence_id ≡ some c)
            × (current_hash s'.hashes p.evidence_id ≡ some (corrected_row q p reason c)))
  unfolding corrected_row
  correct_hash-HashTable p reason s' h v =
      let r = correct_hash-Superseded p reason s' h in
      let t =
        append_next q.new_id s.hashes (corrected_row q p reason r.current) r.current refl refl
          r.found v in
      (
        subst (HashTable (suc q.new_id)) (sym r.appended) t.0,
        (r.current, r.found, rw (r.appended) (t.1)),
      )

  -- With distinct hash ids, an accepted verification reports Verified if the given digest is the
  -- item's current hash and Failed if it is not, stores a row with that result for that hash, and
  -- leaves every hash as it is.
  pub verify-Checked :
      (p : Check) (r : (HashResult × Text) × Store)
      → verify q p s ≡ ok r
      → Distinct (λ h. h.hash_id) s.hashes
      → Checked q p s r
  unfolding verify current_hash
  verify-Checked p r h v = elim (Option-cases (evidence_by_id s p.evidence_id)) [
    | inl e ↦ absurd (ground arith)
    | inr f ↦ elim (Option-cases (find (is_current s.hashes p.evidence_id) s.hashes)) [
      | inl e ↦ absurd (ground (arith, f.1))
      | inr c ↦
          verify_against-Checked q p s r f.0 c.0 c.1
            (find-Distinct (λ h. h.hash_id) (is_current s.hashes p.evidence_id) s.hashes c.0 v c.1)
            (ground (arith, f.1, c.1))
    ]
  ]
