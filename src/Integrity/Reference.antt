-- ===== src/Integrity/Reference.antt =====
-- The chain of reference hashes: one current hash for an item at most, and what each service of
-- app/integrity/services.py does to it.
use mathlib.Core.Path.{subst, fun_ext}
use forge_x.Shared.{
  ◌==◌, if◌then◌else◌, ==_iff, Bool-cases, find, count, ℕ, ◌+◌, ◌≤◌, ◌≡◌, ◌∙◌, inl, inr, Bool, true,
  not, ◌&&◌, none, some, List, [], ◌∷◌, ◌++◌, arith,
}
use forge_x.Store.{HashRow}
use forge_x.Integrity.{supersedes, is_current, current_hash}
use forge_x.Integrity.Current.{
  count-append, count-split, find-count, absent_count, is_current-append,
}

-- No item has two current hashes.
unfoldable pub OneCurrent : List HashRow → Type 0
OneCurrent hs = (eid : ℕ) → count (is_current hs eid) hs ≤ 1

pub is_current-split :
    (hs : List HashRow) (h : HashRow) (eid : ℕ)
    → is_current (hs ++ h ∷ []) eid ≡ (λ x. is_current hs eid x && not (supersedes h x.hash_id))
is_current-split hs h eid = fun_ext (λ x. is_current-append hs h x eid)

count_one :
    (p : HashRow → Bool) (hs : List HashRow) (h : HashRow)
    → count p (hs ++ h ∷ []) ≡ count p hs + (if p h then 1 else 0)
unfolding count
count_one p hs h = count-append p hs (h ∷ []) ∙ ground arith

-- The current hashes of an item after a row is added: those that the row does not supersede, and
-- the row if it is the item's.
count_current :
    (hs : List HashRow) (h : HashRow) (eid : ℕ)
    → count (is_current (hs ++ h ∷ []) eid) (hs ++ h ∷ [])
      ≤ count (λ x. is_current hs eid x && not (supersedes h x.hash_id)) hs
        + (if h.evidence_id == eid then 1 else 0)
unfolding is_current
count_current hs h eid =
    rw
      (
        is_current-split hs h eid,
        count_one (λ x. is_current hs eid x && not (supersedes h x.hash_id)) hs h,
      )
      (ground arith)

pub count_kept :
    (hs : List HashRow) (h : HashRow) (eid : ℕ)
    → count (λ x. is_current hs eid x && not (supersedes h x.hash_id)) hs
      ≤ count (is_current hs eid) hs
count_kept hs h eid =
    let split = count-split (is_current hs eid) (λ x. supersedes h x.hash_id) hs in omega arith

-- Adding a row to an item without a current hash
pub append-OneCurrent_first :
    (hs : List HashRow) (h : HashRow)
    → current_hash hs h.evidence_id ≡ none
    → OneCurrent hs
    → OneCurrent (hs ++ h ∷ [])
unfolding OneCurrent current_hash
append-OneCurrent_first hs h e v = λ eid.
    let kept = count_kept hs h eid in
    let after = count_current hs h eid in
    let before = v eid in
    elim (Bool-cases (h.evidence_id == eid)) [
      | inl same ↦
          let absent =
            absent_count (is_current hs eid) hs (
              subst (λ k. find (is_current hs k) hs ≡ none) ((==_iff h.evidence_id eid).0 same)
                e) in
          let more = rw same at after in omega arith
      | inr other ↦ let more = rw other at after in omega arith
    ]

-- Adding a row that supersedes the current hash of its item
pub append-OneCurrent_next :
    (hs : List HashRow) (h c : HashRow)
    → current_hash hs h.evidence_id ≡ some c
    → supersedes h c.hash_id ≡ true
    → OneCurrent hs
    → OneCurrent (hs ++ h ∷ [])
unfolding OneCurrent current_hash
append-OneCurrent_next hs h c e k v = λ eid.
    let kept = count_kept hs h eid in
    let after = count_current hs h eid in
    let before = v eid in
    let split = count-split (is_current hs eid) (λ x. supersedes h x.hash_id) hs in
    elim (Bool-cases (h.evidence_id == eid)) [
      | inl same ↦
          let there =
            find-count (is_current hs eid) (λ x. supersedes h x.hash_id) hs c
              (subst (λ k. find (is_current hs k) hs ≡ some c) ((==_iff h.evidence_id eid).0 same)
                e)
              k in
          let more = rw same at after in omega arith
      | inr other ↦ let more = rw other at after in omega arith
    ]
