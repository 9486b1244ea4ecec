-- ===== src/Shared/Tables.antt =====
-- Lookups in a table of rows by their key, after an insert and after an UPDATE by key.
use mathlib.Core.Option
use mathlib.Core.Path.{subst}
use forge_x.Shared.{
  ◌==◌, if◌then◌else◌, ==_refl, Bool-cases, find, select, update_where, ℕ, ◌≡◌, refl, inl, inr,
  Bool, true, false, some, List, [], ◌∷◌, ◌++◌, arith,
}

module _ {A : Type 0} (of_row : A → Type 0) where
  abbrev pub All : List A → Type 0
  All [] = Unit
  All (row ∷ rows) = of_row row × All rows

pub All-append :
    {A : Type 0} (P : A → Type 0) (xs : List A) (a : A) → All P xs → P a → All P (xs ++ a ∷ [])
All-append P [] a v p = (p, tt)
All-append P (x ∷ xs) a v p = (v.0, All-append P xs a v.1 p)

pub All-find :
    {A : Type 0} (P : A → Type 0) (p : A → Bool) (xs : List A) (a : A)
    → All P xs
    → find p xs ≡ some a
    → P a
unfolding find
All-find P p [] a v h = cc
All-find P p (x ∷ xs) a v h = elim (Bool-cases (p x)) [
  | inl e ↦ let same : x ≡ a = ground arith in subst P same v.0
  | inr e ↦ All-find P p xs a v.1 (ground arith)
]

pub find_fits : {A : Type 0} (p : A → Bool) (xs : List A) {a : A} → find p xs ≡ some a → p a ≡ true
unfolding find
find_fits p [] h = cc
find_fits p (x ∷ xs) {a} h = elim (Bool-cases (p x)) [
  | inl e ↦ ground (arith, e)
  | inr e ↦ find_fits p xs {a = a} (ground (arith, h, e))
]

pub All-select : {A : Type 0} (p : A → Bool) (rows : List A) → All (λ r. p r ≡ true) (select p rows)
unfolding select
All-select p [] = tt
All-select p (r ∷ rs) = elim (Bool-cases (p r)) [
  | inl e ↦ rw e (e, All-select p rs)
  | inr e ↦ rw e (All-select p rs)
]

pub All-map :
    {A : Type 0} (P Q : A → Type 0) (xs : List A) → ((x : A) → P x → Q x) → All P xs → All Q xs
All-map P Q [] k v = tt
All-map P Q (x ∷ xs) k v = (k x v.0, All-map P Q xs k v.1)

module _ {A : Type 0} (key : A → ℕ) where
  -- A primary key
  unfoldable pub Distinct : List A → Type 0
  Distinct [] = Unit
  Distinct (x ∷ xs) = All (λ y. (key x == key y) ≡ false) xs × Distinct xs

  -- A row found by any test is the row found by its key.
  pub find-Distinct :
      (p : A → Bool) (xs : List A) (a : A)
      → Distinct xs
      → find p xs ≡ some a
      → find (λ x. key x == key a) xs ≡ some a
  unfolding find Distinct
  find-Distinct p [] a v h = cc
  find-Distinct p (x ∷ xs) a v h = elim (Bool-cases (p x)) [
    | inl e ↦ let same : x ≡ a = ground arith in rw (same, ==_refl (key a)) refl
    | inr e ↦
        let f : find p xs ≡ some a = ground arith in
        rw (All-find (λ y. (key x == key y) ≡ false) p xs a v.0 f) (find-Distinct p xs a v.1 f)
  ]

  pub find_key : (k : ℕ) (xs : List A) {a : A} → find (λ x. key x == k) xs ≡ some a → key a ≡ k
  unfolding find
  find_key k [] h = cc
  find_key k (x ∷ xs) h = elim (Bool-cases (key x == k)) [
    | inl e ↦ ground arith
    | inr e ↦ find_key k xs (ground arith)
  ]

  pub find-append-old :
      (k : ℕ) (xs ys : List A) {a : A}
      → find (λ x. key x == k) xs ≡ some a
      → find (λ x. key x == k) (xs ++ ys) ≡ some a
  unfolding find
  find-append-old k [] ys h = cc
  find-append-old k (x ∷ xs) ys {a} h = ground (arith, find-append-old k xs ys {a = a})

  module _ (f : A → A) (keeps : (a : A) → key (f a) ≡ key a) where
    -- UPDATE … SET f WHERE key = k, then SELECT … WHERE key = j
    pub find-update_where :
        (k j : ℕ) (xs : List A)
        → find (λ x. key x == j) (update_where (λ x. key x == k) f xs)
          ≡ (if k == j then Option.map f (find (λ x. key x == j) xs) else find (λ x. key x == j) xs)
    unfolding find update_where
    find-update_where k j [] = ground arith
    find-update_where k j (x ∷ xs) = ground (arith, find-update_where k j xs, keeps x)
