-- ===== src/Integrity/Table.antt =====
-- The table of hashes grows by fresh rows: distinct ids, one current hash for an item at most, and the
-- row that is added is the current one.
use forge_x.Shared.{
  ◌==◌, ==_refl, Option-cases, find, exists, count, ℕ, suc, ◌<◌, ◌≡◌, refl, inl, inr, Bool, true,
  false, not, ◌&&◌, Option, none, some, List, [], ◌∷◌, ◌++◌, arith,
}
use forge_x.Shared.Tables.{All, All-append, All-find, Distinct}
use forge_x.Store.{HashRow}
use forge_x.Integrity.{supersedes, superseded, is_current, current_hash}
use forge_x.Integrity.Current.{count-split, find-count, absent_count}
use forge_x.Integrity.Reference.{
  OneCurrent, is_current-split, count_kept, append-OneCurrent_first, append-OneCurrent_next,
}

-- A row's id and the id it supersedes are below `n`.
abbrev pub RefBelow : ℕ → Option ℕ → Type 0
RefBelow n none = Unit
RefBelow n (some k) = k < n

abbrev pub Below : ℕ → HashRow → Type 0
Below n h = (h.hash_id < n) × RefBelow n h.supersedes_hash_id

-- The table of hashes with `n` the next AUTO_INCREMENT value: ids are distinct and below it, and no
-- item has two current hashes.
pub record HashTable (n : ℕ) (hs : List HashRow) : Type 0 where
  pub one : OneCurrent hs
  pub keys : Distinct (λ h. h.hash_id) hs
  pub below : All (Below n) hs

superseded-Below : (n : ℕ) (hs : List HashRow) → All (Below n) hs → superseded hs n ≡ false
unfolding superseded supersedes exists
superseded-Below n [] v = refl
superseded-Below n (h ∷ hs) v = elim (Option-cases h.supersedes_hash_id) [
  | inl e ↦ ground (arith, superseded-Below n hs v.1)
  | inr k ↦
      let low : k.0 < n = rw (k.1) at (v.0.1) in ground (arith, k.1, superseded-Below n hs v.1)
]

Below-weaken : (n : ℕ) (hs : List HashRow) → All (Below n) hs → All (Below (suc n)) hs
Below-weaken n [] v = tt
Below-weaken n (h ∷ hs) v =
    ((omega arith, ref_below h.supersedes_hash_id v.0.1), Below-weaken n hs v.1)
  where
    ref_below : (o : Option ℕ) → RefBelow n o → RefBelow (suc n) o
    ref_below none u = tt
    ref_below (some k) u = omega arith

Distinct-append :
    (n : ℕ) (hs : List HashRow) (h : HashRow)
    → h.hash_id ≡ n
    → All (Below n) hs
    → Distinct (λ x. x.hash_id) hs
    → Distinct (λ x. x.hash_id) (hs ++ h ∷ [])
unfolding Distinct
Distinct-append n [] h e v d = (tt, tt)
Distinct-append n (x ∷ xs) h e v d = (
  All-append (λ y. (x.hash_id == y.hash_id) ≡ false) xs h d.0 (ground (arith, v.0.0)),
  Distinct-append n xs h e v.1 d.1,
)

find-append_last :
    (p : HashRow → Bool) (hs : List HashRow) (h : HashRow)
    → find p hs ≡ none
    → p h ≡ true
    → find p (hs ++ h ∷ []) ≡ some h
unfolding find
find-append_last p [] h e k = ground arith
find-append_last p (x ∷ xs) h e k = ground (arith, find-append_last p xs h)

count-none : {A : Type 0} (p : A → Bool) (xs : List A) → count p xs ≡ 0 → find p xs ≡ none
unfolding find count
count-none p [] h = refl
count-none p (x ∷ xs) h = ground (arith, count-none p xs)

module _ (n : ℕ) (hs : List HashRow) (h : HashRow) where
  -- A fresh row that leaves its item no other current hash is the item's current hash.
  current_last :
      h.hash_id ≡ n
      → All (Below n) hs
      → supersedes h n ≡ false
      → count (λ x. is_current hs h.evidence_id x && not (supersedes h x.hash_id)) hs ≡ 0
      → current_hash (hs ++ h ∷ []) h.evidence_id ≡ some h
  unfolding current_hash is_current supersedes
  current_last e v own gone = rw (is_current-split hs h h.evidence_id) (
      find-append_last (λ x. is_current hs h.evidence_id x && not (supersedes h x.hash_id)) hs h
        (count-none _ hs gone) (rw (==_refl h.evidence_id, e, superseded-Below n hs v, own) refl))

  grows :
      h.hash_id ≡ n
      → RefBelow (suc n) h.supersedes_hash_id
      → HashTable n hs
      → OneCurrent (hs ++ h ∷ [])
      → HashTable (suc n) (hs ++ h ∷ [])
  grows e r v one = record {
    one = one;
    keys = Distinct-append n hs h e v.below v.keys;
    below = All-append (Below (suc n)) hs h (Below-weaken n hs v.below) (omega arith, r);
  }

  -- A first row of an item
  pub append_first :
      h.hash_id ≡ n
      → h.supersedes_hash_id ≡ none
      → current_hash hs h.evidence_id ≡ none
      → HashTable n hs
      → HashTable (suc n) (hs ++ h ∷ []) × (current_hash (hs ++ h ∷ []) h.evidence_id ≡ some h)
  unfolding current_hash supersedes
  append_first e r gone v =
      let kept = count_kept hs h h.evidence_id in
      let absent = absent_count (is_current hs h.evidence_id) hs gone in
      (
        grows e (rw r tt) v (append-OneCurrent_first hs h gone v.one),
        current_last e v.below (rw r refl) (omega arith),
      )

  -- A row that supersedes the current one of its item
  pub append_next :
      (c : HashRow)
      → h.hash_id ≡ n
      → h.supersedes_hash_id ≡ some c.hash_id
      → current_hash hs h.evidence_id ≡ some c
      → HashTable n hs
      → HashTable (suc n) (hs ++ h ∷ []) × (current_hash (hs ++ h ∷ []) h.evidence_id ≡ some h)
  unfolding current_hash supersedes OneCurrent
  append_next c e r found v =
      let low = (All-find (Below n) (is_current hs h.evidence_id) hs c v.below found).0 in
      let names : supersedes h c.hash_id ≡ true = ground (arith, r) in
      let there =
        find-count (is_current hs h.evidence_id) (λ x. supersedes h x.hash_id) hs c found names in
      let split = count-split (is_current hs h.evidence_id) (λ x. supersedes h x.hash_id) hs in
      let single = v.one h.evidence_id in
      (
        grows e (rw r (omega arith)) v (append-OneCurrent_next hs h c found names v.one),
        current_last e v.below (ground (arith, r)) (omega arith),
      )
