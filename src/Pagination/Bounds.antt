-- ===== src/Pagination/Bounds.antt =====
-- The page that a list function reads lies within the rows there are, and the pages cover them.
use forge_x.Shared.{ℕ, zero, suc, ◌+◌, ◌-◌, ◌*◌, ◌/◌, ◌≤◌, ◌<◌, ◌≡◌, ap, ◌↔◌, true, false, arith}
use forge_x.Pagination.{
  PageArg, bad, minus, number, parse_page, Page, ceil_div, pages, offset, has_next, first_item,
  last_item, clamp,
}
use native.Mathlib.Nat.{mod-lt, div-add-mod, div-eq_of_lt}

-- A page number read from a request is at least 1.
pub parse_page_pos : (a : PageArg) → 1 ≤ parse_page a
unfolding parse_page
parse_page_pos bad = omega arith
parse_page_pos (minus n) = omega arith
parse_page_pos (number n) = ground arith

ceil_div-cover : (a b : ℕ) → 0 < b → a ≤ ceil_div a b * b
unfolding ceil_div
ceil_div-cover a b h = grind arith

ceil_div-tight : (a b : ℕ) → 0 < b → 0 < a → (ceil_div a b - 1) * b < a
unfolding ceil_div
ceil_div-tight a b h k = grind arith

pub pred-mul : (n b : ℕ) → 1 ≤ n → (n - 1) * b + b ≡ n * b
pred-mul zero b h = absurd (omega arith)
pred-mul (suc n) b h = grind arith

module _ (p : Page) (h : 0 < p.per_page) where
  pages_pos : 1 ≤ pages p
  unfolding pages
  pages_pos = ground arith

  pub pages-cover : p.total ≤ pages p * p.per_page
  unfolding pages
  pages-cover = grind (arith, ceil_div-cover p.total p.per_page h)

  pages-tight : 0 < p.total → (pages p - 1) * p.per_page < p.total
  unfolding pages
  pages-tight k = grind (arith, ceil_div-tight p.total p.per_page h k)

  offset-lt-total : 0 < p.total → p.page ≤ pages p → offset p < p.total
  unfolding offset
  offset-lt-total k l = grind (arith, pages-tight k)

  last_page-cover : p.page ≡ pages p → p.total ≤ offset p + p.per_page
  unfolding offset
  last_page-cover e = omega (
    arith,
    pages-cover,
    pages_pos,
    pred-mul (pages p) p.per_page pages_pos,
    ap (λ (n : ℕ). (n - 1) * p.per_page) e,
  )

  pages-empty : p.total ≡ 0 → pages p ≡ 1
  unfolding pages ceil_div
  pages-empty e =
      rw e (ground (arith, div-eq_of_lt {n = p.per_page - 1} {m = p.per_page} (omega arith)))

  before_next : 1 ≤ p.page → p.page < pages p → offset p + p.per_page < p.total
  unfolding offset
  before_next k l =
      let t : 0 < p.total = ground (arith, pages-empty) in
      let m : p.page * p.per_page ≤ (pages p - 1) * p.per_page = grind arith in
      omega (arith, pages-tight t, pred-mul p.page p.per_page k)

-- Whatever page is asked for, the page read is one of the pages, 1 to `pages`; if there are rows it
-- holds at least one and at most `per_page` of them, all within the total; with no rows it is page
-- 1, and is empty.
pub clamp_bounds :
    (page per_page total : ℕ)
    → 1 ≤ page
    → 0 < per_page
    → let p = clamp page per_page total in
      (1 ≤ p.page)
      × (p.page ≤ pages p)
      × (0 < total
          → (1 ≤ first_item p)
            × (first_item p ≤ last_item p)
            × (last_item p ≤ total)
            × (last_item p ≤ offset p + per_page))
      × (total ≡ 0 → (p.page ≡ 1) × (first_item p ≡ 0) × (last_item p ≡ 0))
unfolding clamp pages first_item last_item
clamp_bounds page per_page total h k = (
  clamp_pos,
  clamp-le-pages,
  λ t. ground (arith, offset-lt-total q k t clamp-le-pages),
  λ e. ground (arith, pages-empty q k e, clamp-le-pages, clamp_pos),
)
  where
    q : Page
    q = clamp page per_page total

    clamp_pos : 1 ≤ q.page
    clamp_pos = ground arith

    clamp-le-pages : q.page ≤ pages q
    clamp-le-pages = ground arith

-- The page after the last row's is never offered: with `has_next` there is a row behind the page,
-- and without it the page, if it is one of the pages, ends with the last row.
pub has_next_exact :
    (p : Page)
    → 0 < p.per_page
    → 1 ≤ p.page
    → p.page ≤ pages p
    → (has_next p ≡ true → last_item p < p.total) × (has_next p ≡ false → last_item p ≡ p.total)
unfolding has_next last_item offset
has_next_exact p h k l =
    (λ w. ground (arith, before_next p h k), λ w. ground (arith, last_page-cover p h))

-- Every row is on exactly one page: row `i` lies between the offset of page `n` and its last item
-- exactly if `n` is `i / per_page + 1`.
pub rows_partition :
    (per_page total i n : ℕ)
    → 0 < per_page
    → i < total
    → 1 ≤ n
    → let p : Page = record { page = n; per_page = per_page; total = total } in
      ((offset p ≤ i) × (i < last_item p)) ↔ (n ≡ i / per_page + 1)
unfolding offset last_item
rows_partition per_page total i n h k l = (
  λ w. grind (arith, div-add-mod i per_page, mod-lt),
  λ w. grind (arith, div-add-mod i per_page, mod-lt),
)
