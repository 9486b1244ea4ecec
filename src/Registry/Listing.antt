-- ===== src/Registry/Listing.antt =====
-- `list_evidence` of app/evidence/services.py: one page of the rows that fit the filters, in the
-- cases that the scope lets the user see. The order of `sort` is a parameter, and the size of a page
-- is positive.
use forge_x.Shared.{length, take, drop, select, ℕ, ◌-◌, ◌*◌, Bool, ◌&&◌, List}
use forge_x.Shared.Text.{Text}
use forge_x.Access.{Scope, visible}
use forge_x.Pagination.{Page, clamp}
use forge_x.Registry.{EvidenceFilters, RegistryRow, fits_filters}

-- What `Page` holds
pub record Listing : Type 0 where
  pub items : List RegistryRow
  pub shown : Page

unfoldable pub fits_scope : (assignments : List (ℕ × ℕ)) → Scope → RegistryRow → Bool
fits_scope assignments scope r = visible scope assignments r.case_id

unfoldable pub selected_rows :
    (like : Text → Text → Bool) (assignments : List (ℕ × ℕ))
    → Scope
    → EvidenceFilters
    → List RegistryRow
    → List RegistryRow
unfolding fits_scope
selected_rows like assignments scope f rows =
    select (λ r. fits_filters like f r && fits_scope assignments scope r) rows

unfoldable pub list_evidence :
    (like : Text → Text → Bool) (sort_by : Text → List RegistryRow → List RegistryRow)
    (assignments : List (ℕ × ℕ))
    → Scope
    → EvidenceFilters
    → ℕ
    → ℕ
    → List RegistryRow
    → Listing
unfolding selected_rows
list_evidence like sort_by assignments scope f page per_page rows =
    let found = selected_rows like assignments scope f rows in
    let shown = clamp page per_page (length found) in
    record {
      items = take per_page (drop ((shown.page - 1) * per_page) (sort_by f.sort found));
      shown = shown;
    }
