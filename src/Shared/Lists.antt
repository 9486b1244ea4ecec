-- ===== src/Shared/Lists.antt =====
-- Lists measured by native numbers, and tables as lists of rows: the first row that a test
-- accepts, whether there is one, how many there are, and UPDATE and DELETE by a test.
use Prim.Native.Nat.{ℕ, zero, suc, ◌+◌, min}
use mathlib.Core.Path.{◌≡◌, refl, ap}
use mathlib.Core.Bool.{Bool, true, false, not, ◌&&◌, ◌||◌}
use mathlib.Core.Option.{Option, none, some}
use mathlib.Core.List.{List, [], ◌∷◌, ◌++◌}
use native.Mathlib.Omega.{arith}
use forge_x.Shared.Tests.{if◌then◌else◌}

module _ {ℓ} {A : Type ℓ} where
  abbrev pub length : List A → ℕ
  length [] = 0
  length (x ∷ xs) = suc (length xs)

  abbrev pub take : ℕ → List A → List A
  take zero xs = []
  take (suc n) [] = []
  take (suc n) (x ∷ xs) = x ∷ take n xs

  abbrev pub drop : ℕ → List A → List A
  drop zero xs = xs
  drop (suc n) [] = []
  drop (suc n) (x ∷ xs) = drop n xs

  pub append_nothing : (xs : List A) → xs ≡ xs ++ []
  append_nothing [] = refl
  append_nothing (x ∷ xs) = ap (λ l. x ∷ l) (append_nothing xs)

  pub append_assoc : (xs ys zs : List A) → (xs ++ ys) ++ zs ≡ xs ++ (ys ++ zs)
  append_assoc [] ys zs = refl
  append_assoc (x ∷ xs) ys zs = ap (λ l. x ∷ l) (append_assoc xs ys zs)

  pub length-append : (xs ys : List A) → length (xs ++ ys) ≡ length xs + length ys
  length-append [] ys = omega arith
  length-append (x ∷ xs) ys = omega (arith, length-append xs ys)

  pub length-take : (n : ℕ) (xs : List A) → length (take n xs) ≡ min n (length xs)
  length-take zero xs = omega arith
  length-take (suc n) [] = omega arith
  length-take (suc n) (x ∷ xs) = omega (arith, length-take n xs)

  -- SELECT ... WHERE p LIMIT 1
  unfoldable pub find : (A → Bool) → List A → Option A
  find p [] = none
  find p (x ∷ xs) = if p x then some x else find p xs

  -- EXISTS (SELECT 1 ... WHERE p)
  unfoldable pub exists : (A → Bool) → List A → Bool
  exists p [] = false
  exists p (x ∷ xs) = p x || exists p xs

  unfoldable pub all : (A → Bool) → List A → Bool
  all p [] = true
  all p (x ∷ xs) = p x && all p xs

  -- SELECT COUNT(*) ... WHERE p
  unfoldable pub count : (A → Bool) → List A → ℕ
  count p [] = 0
  count p (x ∷ xs) = if p x then suc (count p xs) else count p xs

  -- SELECT ... WHERE p
  unfoldable pub select : (A → Bool) → List A → List A
  select p [] = []
  select p (x ∷ xs) = if p x then x ∷ select p xs else select p xs

  -- UPDATE ... SET f WHERE p
  unfoldable pub update_where : (A → Bool) → (A → A) → List A → List A
  update_where p f [] = []
  update_where p f (x ∷ xs) = (if p x then f x else x) ∷ update_where p f xs

  -- DELETE ... WHERE p
  unfoldable pub delete_where : (A → Bool) → List A → List A
  delete_where p [] = []
  delete_where p (x ∷ xs) = if p x then delete_where p xs else x ∷ delete_where p xs

  pub exists_mono :
      (p q : A → Bool) (xs : List A)
      → ((x : A) → p x ≡ true → q x ≡ true)
      → exists p xs ≡ true
      → exists q xs ≡ true
  unfolding exists
  exists_mono p q [] m h = h
  exists_mono p q (x ∷ xs) m h = ground (arith, m x, exists_mono p q xs m)

  pub exists-append_left :
      (p : A → Bool) (xs ys : List A) → exists p xs ≡ true → exists p (xs ++ ys) ≡ true
  unfolding exists
  exists-append_left p [] ys h = absurd (ground arith)
  exists-append_left p (x ∷ xs) ys h = ground (arith, exists-append_left p xs ys)

  -- A row that the test accepts before an UPDATE, and after it wherever it is updated
  pub exists-update_where :
      (p w : A → Bool) (f : A → A) (xs : List A)
      → ((x : A) → p x ≡ true → w x ≡ true → p (f x) ≡ true)
      → exists p xs ≡ true
      → exists p (update_where w f xs) ≡ true
  unfolding exists update_where
  exists-update_where p w f [] k h = h
  exists-update_where p w f (x ∷ xs) k h = ground (arith, k x, exists-update_where p w f xs k)

  -- A row that the test accepts and the UPDATE misses
  pub exists-update_where_missed :
      (p w : A → Bool) (f : A → A) (xs : List A)
      → exists (λ x. p x && not (w x)) xs ≡ true
      → exists p (update_where w f xs) ≡ true
  unfolding exists update_where
  exists-update_where_missed p w f [] h = h
  exists-update_where_missed p w f (x ∷ xs) h = ground (arith, exists-update_where_missed p w f xs)

  -- A row that the test accepts and a DELETE misses
  pub exists-delete_where_missed :
      (p w : A → Bool) (xs : List A)
      → ((x : A) → w x ≡ true → p x ≡ false)
      → exists p xs ≡ true
      → exists p (delete_where w xs) ≡ true
  unfolding exists delete_where
  exists-delete_where_missed p w [] k h = h
  exists-delete_where_missed p w (x ∷ xs) k h =
      ground (arith, k x, exists-delete_where_missed p w xs k)
