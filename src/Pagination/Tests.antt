-- ===== src/Pagination/Tests.antt =====
-- Instances of the theorems about pages: page 5 of 90 rows, 10 on a page.
use forge_x.Shared.{select, ◌≤◌, ◌≡◌, arith}
use forge_x.Pagination.{Page, ceil_div, pages, shown, window}
use forge_x.Pagination.Window.{range, numbers, Spaced, window_exact}

abbrev fifth : Page
fifth = record { page = 5; per_page = 10; total = 90 }

fifth_below : 5 ≤ pages fifth
unfolding pages ceil_div
fifth_below = omega arith

window_exact_example :
    (numbers (window fifth 1 2) ≡ select (shown (pages fifth) 5 1 2) (range 1 (pages fifth)))
    × Spaced 0 (window fifth 1 2)
window_exact_example = window_exact fifth 1 2
