-- ===== src/Pagination/Cover.antt =====
-- The pages that LIMIT and OFFSET read are together the whole list.
use forge_x.Shared.{
  length, take, drop, count, ℕ, zero, suc, ◌+◌, ◌-◌, ◌*◌, ◌≤◌, ◌<◌, min, ◌≡◌, refl, sym, ap, ◌∙◌,
  List, [], ◌∷◌, ◌++◌, arith,
}
use forge_x.Pagination.{Page, pages, clamp}
use forge_x.Pagination.Bounds.{pred-mul, pages-cover}

-- The items of the pages 1 to `count`
unfoldable pub gathered : {A : Type 0} → (ℕ → List A) → ℕ → List A
gathered items zero = []
gathered items (suc count) = gathered items count ++ items (suc count)

module _ {A : Type 0} where
  take-nothing : (n : ℕ) → take {A = A} n [] ≡ []
  take-nothing zero = refl
  take-nothing (suc n) = refl

  take-drop : (a n : ℕ) (xs : List A) → take a xs ++ take n (drop a xs) ≡ take (a + n) xs
  take-drop zero n xs = let same : n ≡ 0 + n = omega arith in ap (λ m. take m xs) same
  take-drop (suc a) n [] = take-nothing n ∙ sym (take-nothing (suc a + n))
  take-drop (suc a) n (x ∷ xs) =
      let same : suc (a + n) ≡ suc a + n = omega arith in
      ap (λ l. x ∷ l) (take-drop a n xs) ∙ ap (λ m. take m (x ∷ xs)) same

  take_all : (n : ℕ) (xs : List A) → length xs ≤ n → take n xs ≡ xs
  take_all zero [] h = refl
  take_all zero (x ∷ xs) h = absurd (omega arith)
  take_all (suc n) [] h = refl
  take_all (suc n) (x ∷ xs) h = ap (λ l. x ∷ l) (take_all n xs (omega arith))

  gathered-take :
      (items : ℕ → List A) (n : ℕ) (xs : List A) (m : ℕ)
      → ((k : ℕ) → 1 ≤ k → k ≤ m → items k ≡ take n (drop ((k - 1) * n) xs))
      → gathered items m ≡ take (m * n) xs
  unfolding gathered
  gathered-take items n xs zero h = let same : 0 ≡ 0 * n = omega arith in ap (λ a. take a xs) same
  gathered-take items n xs (suc m) h =
      let before = gathered-take items n xs m (λ k l u. h k l (omega arith)) in
      let next = h (suc m) (omega arith) (omega arith) in
      let less : suc m - 1 ≡ m = omega arith in
      let sum : m * n + n ≡ suc m * n =
        ap (λ a. a * n + n) (sym less) ∙ pred-mul (suc m) n (omega arith) in
      ap (λ l. l ++ items (suc m)) before
      ∙ ap (λ l. take (m * n) xs ++ l) (next ∙ ap (λ a. take n (drop (a * n) xs)) less)
      ∙ take-drop (m * n) n xs
      ∙ ap (λ a. take a xs) sum

  -- Pages of a positive size, read at the clamped page, are together the list.
  pub clamped-gathered :
      (per_page total : ℕ) (xs : List A)
      → 0 < per_page
      → length xs ≡ total
      → gathered
          (λ k. take per_page (drop (((clamp k per_page total).page - 1) * per_page) xs))
          (pages (clamp 1 per_page total))
        ≡ xs
  unfolding clamp pages
  clamped-gathered per_page total xs h same =
      let p : Page = record { page = 1; per_page = per_page; total = total } in
      let m = pages p in
      let cover : total ≤ m * per_page = pages-cover p h in
      gathered-take (λ k. take per_page (drop (((clamp k per_page total).page - 1) * per_page) xs))
        per_page xs m
        (λ k l u.
          let whole : min k m ≡ k = omega (arith, u) in
          ap (λ a. take per_page (drop ((a - 1) * per_page) xs)) whole)
      ∙ take_all (m * per_page) xs (omega (arith, cover, same))
