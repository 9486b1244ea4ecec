-- ===== src/Integrity/Current.antt =====
-- At most one hash of an item is not superseded, and each insert makes its row that one.

use forge_x.Shared.{
  if◌then◌else◌, Bool-cases, find, exists, count, ℕ, ◌+◌, ◌≤◌, ◌≡◌, refl, ap, inl, inr, Bool, true,
  not, ◌&&◌, ◌||◌, none, some, List, [], ◌∷◌, ◌++◌, arith,
}
use forge_x.Store.{HashRow}
use forge_x.Integrity.{supersedes, superseded, is_current}

module _ {A : Type 0} where
  pub count-append : (p : A → Bool) (xs ys : List A) → count p (xs ++ ys) ≡ count p xs + count p ys
  unfolding count
  count-append p [] ys = omega arith
  count-append p (x ∷ xs) ys = ground (arith, count-append p xs ys)

  pub count-split :
      (p q : A → Bool) (xs : List A)
      → count (λ x. p x && not (q x)) xs + count (λ x. p x && q x) xs ≡ count p xs
  unfolding count
  count-split p q [] = refl
  count-split p q (x ∷ xs) = ground (arith, count-split p q xs)

  pub find-count :
      (p q : A → Bool) (xs : List A) (a : A)
      → find p xs ≡ some a
      → q a ≡ true
      → 1 ≤ count (λ x. p x && q x) xs
  unfolding find count
  find-count p q [] a h k = cc
  find-count p q (x ∷ xs) a h k = elim (Bool-cases (p x)) [
    | inl e ↦ let same : x ≡ a = ground arith in ground (arith, ap q same)
    | inr e ↦ ground (arith, find-count p q xs a)
  ]

  pub absent_count : (p : A → Bool) (xs : List A) → find p xs ≡ none → count p xs ≡ 0
  unfolding find count
  absent_count p [] h = refl
  absent_count p (x ∷ xs) h = ground (arith, absent_count p xs)

  pub find-append_count :
      (p : A → Bool) (xs : List A) (a : A)
      → count p xs ≡ 0
      → find p (xs ++ a ∷ []) ≡ (if p a then some a else none)
  unfolding find count
  find-append_count p [] a h = refl
  find-append_count p (x ∷ xs) a h = ground (arith, find-append_count p xs a)

pub exists-append_one :
    {A : Type 0} (p : A → Bool) (xs : List A) (a : A)
    → exists p (xs ++ a ∷ []) ≡ (exists p xs || p a)
unfolding exists
exists-append_one p [] a = ground arith
exists-append_one p (x ∷ xs) a = ground (arith, exists-append_one p xs a)

pub is_current-append :
    (hs : List HashRow) (h x : HashRow) (eid : ℕ)
    → is_current (hs ++ h ∷ []) eid x ≡ (is_current hs eid x && not (supersedes h x.hash_id))
unfolding is_current superseded
is_current-append hs h x eid = ground (arith, exists-append_one (λ y. supersedes y x.hash_id) hs h)
