-- ===== src/Pagination/Window.antt =====
-- `Page.window`: which page numbers are shown, and where the gaps stand.
use forge_x.Shared.{
  ltb, ◌==◌, ==_iff, Bool-cases, exists, select, ℕ, zero, suc, ◌+◌, ◌-◌, ◌≤◌, ◌<◌, ◌≡◌, refl, ap,
  ◌∙◌, ◌⊎◌, inl, inr, Bool, true, false, ◌&&◌, Option, none, some, List, [], ◌∷◌, arith,
}
use forge_x.Pagination.{Page, pages, shown, gap, window_from, window}

-- The page numbers n, n + 1, …, of which there are `left`.
unfoldable pub range : ℕ → ℕ → List ℕ
range n zero = []
range n (suc left) = n ∷ range (suc n) left

-- The page numbers of a window, without its gaps.
unfoldable pub numbers : List (Option ℕ) → List ℕ
numbers [] = []
numbers (none ∷ r) = numbers r
numbers (some n ∷ r) = n ∷ numbers r

-- After page `last` (0: none): the next page follows at once, unless exactly one gap stands
-- between them, and then a page is missing there. No window ends with a gap.
abbrev pub Spaced : ℕ → List (Option ℕ) → Type 0
Spaced last [] = Unit
Spaced last (some n ∷ r) = ((last ≡ 0) ⊎ (n ≡ suc last)) × Spaced n r
Spaced last (none ∷ []) = ⊥
Spaced last (none ∷ none ∷ r) = ⊥
Spaced last (none ∷ some n ∷ r) = (0 < last) × (suc last < n) × Spaced n r

window_from-numbers :
    (show : ℕ → Bool) (left n last : ℕ)
    → numbers (window_from show left n last) ≡ select show (range n left)
unfolding numbers window_from range select
window_from-numbers show zero n last = refl
window_from-numbers show (suc left) n last =
    ground
      (arith, window_from-numbers show left (suc n) n, window_from-numbers show left (suc n) last)

no_gap :
    (last n : ℕ) → last < n → (ltb 0 last && ltb 1 (n - last)) ≡ false → (last ≡ 0) ⊎ (n ≡ suc last)
no_gap last n h e = ground arith

gap-Spaced : (last n : ℕ) (r : List (Option ℕ)) → last < n → Spaced n r → Spaced last (gap last n r)
gap-Spaced last n r h s = elim (Bool-cases (ltb 0 last && ltb 1 (n - last))) [
  | inl e ↦ rw e (ground arith, ground arith, s)
  | inr e ↦ rw e (no_gap last n h e, s)
]

window_from-Spaced :
    (show : ℕ → Bool) (left n last : ℕ) → last < n → Spaced last (window_from show left n last)
unfolding window_from
window_from-Spaced show zero n last h = tt
window_from-Spaced show (suc left) n last h = elim (Bool-cases (show n)) [
  | inl e ↦
      rw (e, window_from)
        (gap-Spaced last n (window_from show left (suc n) n) h
          (window_from-Spaced show left (suc n) n (omega arith)))
  | inr e ↦ rw (e, window_from) (window_from-Spaced show left (suc n) last (omega arith))
]

-- The window shows exactly the pages 1 to `pages` that lie within `edge` of either end or within
-- `around` of the current page, each once and in order; a gap stands between two of them exactly
-- where pages are left out, never two together and never at an end.
pub window_exact :
    (p : Page) (edge around : ℕ)
    → (numbers (window p edge around)
        ≡ select (shown (pages p) p.page edge around) (range 1 (pages p)))
      × Spaced 0 (window p edge around)
unfolding window
window_exact p edge around =
    (window_from-numbers _ (pages p) 1 0, window_from-Spaced _ (pages p) 1 0 (omega arith))

select-range-below :
    (show : ℕ → Bool) (left n k : ℕ)
    → k < n
    → exists (λ m. m == k) (select show (range n left)) ≡ false
unfolding exists select range
select-range-below show zero n k h = refl
select-range-below show (suc left) n k h = ground (arith, select-range-below show left (suc n) k)

select-range :
    (show : ℕ → Bool) (left n k : ℕ)
    → n ≤ k
    → k < n + left
    → exists (λ m. m == k) (select show (range n left)) ≡ show k
unfolding exists select range
select-range show zero n k h l = absurd (omega arith)
select-range show (suc left) n k h l = elim (Bool-cases (n == k)) [
  | inl e ↦ ground (arith, select-range-below show left (suc n) k, ap show ((==_iff n k).0 e))
  | inr e ↦ ground (arith, select-range show left (suc n) k)
]

-- The current page and, with `edge` at least 1, the first and the last page are always shown.
pub window_anchors :
    (p : Page) (edge around : ℕ)
    → 1 ≤ p.page
    → p.page ≤ pages p
    → 1 ≤ edge
    → (exists (λ m. m == p.page) (numbers (window p edge around)) ≡ true)
      × (exists (λ m. m == 1) (numbers (window p edge around)) ≡ true)
      × (exists (λ m. m == pages p) (numbers (window p edge around)) ≡ true)
unfolding shown
window_anchors p edge around h k l = rw (window_exact p edge around).0 (
  select-range _ (pages p) 1 p.page h (omega arith) ∙ ground arith,
  select-range _ (pages p) 1 1 (omega arith) (omega arith) ∙ ground arith,
  select-range _ (pages p) 1 (pages p) (omega arith) (omega arith) ∙ ground arith,
)
