-- ===== src/Pagination.antt =====
-- app/pagination.py, and the clamping of the page that every list function makes before it reads
-- a page (list_cases, list_evidence, list_examinations, list_reports, list_users, custody_log).
pub mod Bounds
pub mod Cover
pub mod Window
pub mod Tests
use forge_x.Shared.{
  ltb, leb, ◌==◌, if◌then◌else◌, ℕ, zero, suc, ◌+◌, ◌-◌, ◌*◌, ◌/◌, min, max, Bool, true, false,
  ◌&&◌, ◌||◌, Option, none, some, List, [], ◌∷◌,
}

-- `?page=` as `int` reads it: none where it raises, else the sign and the size.
pub data PageArg : Type 0 where
  bad : PageArg
  minus : ℕ → PageArg
  number : ℕ → PageArg

unfoldable pub parse_page : PageArg → ℕ
parse_page bad = 1
parse_page (minus n) = 1
parse_page (number n) = if ltb 0 n then n else 1

pub record Page : Type 0 where
  pub page : ℕ
  pub per_page : ℕ
  pub total : ℕ

-- `ceil(a / b)` and `-(-a // b)`, for b > 0
unfoldable pub ceil_div : ℕ → ℕ → ℕ
ceil_div a b = (a + (b - 1)) / b

unfoldable pub pages : Page → ℕ
unfolding ceil_div
pages p = if p.per_page == 0 then 1 else max 1 (ceil_div p.total p.per_page)

unfoldable pub offset : Page → ℕ
offset p = (p.page - 1) * p.per_page

unfoldable pub has_prev : Page → Bool
has_prev p = ltb 1 p.page

unfoldable pub has_next : Page → Bool
unfolding pages
has_next p = ltb p.page (pages p)

unfoldable pub first_item : Page → ℕ
unfolding offset
first_item p = if p.total == 0 then 0 else offset p + 1

unfoldable pub last_item : Page → ℕ
unfolding offset
last_item p = min (offset p + p.per_page) p.total

-- `abs(n - page) <= around`
abbrev near : ℕ → ℕ → ℕ → Bool
near n page around = leb n (page + around) && leb page (n + around)

-- `n <= edge or n > pages - edge or abs(n - page) <= around`; `pages - edge` may be negative
pub shown : ℕ → ℕ → ℕ → ℕ → ℕ → Bool
shown pages page edge around n = leb n edge || ltb pages (n + edge) || near n page around

-- One round of the loop of `window`: what page `n` adds, after the page shown last (0: none).
abbrev pub gap : ℕ → ℕ → List (Option ℕ) → List (Option ℕ)
gap last n rest = if ltb 0 last && ltb 1 (n - last) then none ∷ some n ∷ rest else some n ∷ rest

-- The rounds from page `n` on, of which `left` remain.
unfoldable pub window_from : (ℕ → Bool) → ℕ → ℕ → ℕ → List (Option ℕ)
window_from show zero n last = []
window_from show (suc left) n last = elim (show n) [
  | true ↦ gap last n (window_from show left (suc n) n)
  | false ↦ window_from show left (suc n) last
]

unfoldable pub window : Page → ℕ → ℕ → List (Option ℕ)
unfolding window_from shown
window p edge around = window_from (shown (pages p) p.page edge around) (pages p) 1 0

-- `pages = max(1, -(-total // per_page)); page = min(page, pages)` and the page read by LIMIT
-- per_page OFFSET (page - 1) * per_page
unfoldable pub clamp : ℕ → ℕ → ℕ → Page
unfolding pages
clamp page per_page total = record {
  page = min page (pages (record { page = page; per_page = per_page; total = total }));
  per_page = per_page;
  total = total;
}
