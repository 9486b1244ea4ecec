-- ===== src/CaseList.antt =====
-- The list of cases of app/cases/services.py: CaseFilters.from_args and list_cases. Dates, LIKE, the
-- order of a sort key and the day of CURDATE() are parameters.
pub mod Pages
pub mod Tests
use forge_x.Shared.{
  ltb, leb, ◌==◌, if◌then◌else◌, length, take, drop, exists, select, ℕ, ◌+◌, ◌-◌, ◌*◌, Bool, false,
  not, ◌&&◌, ◌||◌, Option, none, some, List, [], ◌∷◌,
}
use forge_x.Shared.Text.{Text, codes, strip, text_eq, opt_text_eq, or_empty}
use forge_x.Access.{Scope, visible}
use forge_x.Pagination.{Page, clamp}
use forge_x.Evidence.Texts.{like_pattern}
use forge_x.Registry.{
  key_q, key_type, key_status, key_investigator, key_from, key_to, key_sort, key_priority,
  key_overdue, Args, digits, DateText, parse_date, is_among, kept, read, sort_or_newest,
  unless_empty, unless_unset, unless_none,
}

abbrev pub case_statuses : List Text
case_statuses = codes "Open" ∷ codes "In Progress" ∷ codes "On Hold" ∷ codes "Closed" ∷ []

abbrev pub priorities : List Text
priorities = codes "Low" ∷ codes "Medium" ∷ codes "High" ∷ codes "Critical" ∷ []

-- The keys of SORT_COLUMNS
abbrev pub case_columns : List Text
case_columns =
    codes "reference"
    ∷ codes "title"
    ∷ codes "type"
    ∷ codes "priority"
    ∷ codes "status"
    ∷ codes "lead"
    ∷ codes "evidence"
    ∷ codes "registered"
    ∷ codes "due"
    ∷ codes "activity"
    ∷ []

-- The keys of SORTS
unfoldable pub is_case_sort : Text → Bool
unfolding is_among
is_case_sort [] = false
is_case_sort (c ∷ t) =
    is_among case_columns (c ∷ t)
    || (c == b'-' && is_among case_columns t)
    || is_among
        (codes "due"
          ∷ codes "-due"
          ∷ codes "newest"
          ∷ codes "oldest"
          ∷ codes "priority"
          ∷ codes "reference"
          ∷ [])
        (c ∷ t)

pub record CaseFilters : Type 0 where
  pub query : Text
  pub status : Text
  pub priority : Text
  pub case_type_id : Option ℕ
  pub investigator_id : Option ℕ
  pub date_from : Option ℕ
  pub date_to : Option ℕ
  pub overdue : Bool
  pub sort : Text

-- `CaseFilters.from_args`
unfoldable pub case_filters : DateText → Args → CaseFilters
unfolding kept is_among digits parse_date is_case_sort
case_filters R args = record {
  query = take 100 (strip (or_empty (args key_q)));
  status = kept (λ t. is_among case_statuses t || text_eq t (codes "active")) (args key_status);
  priority = kept (λ t. is_among priorities t || text_eq t (codes "urgent")) (args key_priority);
  case_type_id = read digits (args key_type);
  investigator_id = read digits (args key_investigator);
  date_from = parse_date R (args key_from);
  date_to = parse_date R (args key_to);
  overdue = opt_text_eq (args key_overdue) (some (codes "1"));
  sort = sort_or_newest (kept is_case_sort (args key_sort));
}

-- A row of cases, as the conditions read it
pub record ListedCase : Type 0 where
  pub case_id : ℕ
  pub case_reference : Text
  pub title : Text
  pub status : Text
  pub priority : Text
  pub case_type_id : ℕ
  pub created_at : ℕ
  pub due_date : Option ℕ
  pub investigators : List ℕ

-- `c.due_date < CURDATE()`
abbrev pub is_before : ℕ → Option ℕ → Bool
is_before today none = false
is_before today (some d) = ltb d today

-- The conditions of `list_cases`, with those of STATUS_GROUPS and PRIORITY_GROUPS
unfoldable pub fits_case_filters :
    (like : Text → Text → Bool) (today : ℕ) → CaseFilters → ListedCase → Bool
unfolding like_pattern
fits_case_filters like today f r =
    unless_empty f.query
      (like r.case_reference (like_pattern f.query) || like r.title (like_pattern f.query))
    && (if text_eq f.status (codes "active")
        then not (text_eq r.status (codes "Closed"))
        else unless_empty f.status (text_eq r.status f.status))
    && (if text_eq f.priority (codes "urgent")
        then text_eq r.priority (codes "Critical") || text_eq r.priority (codes "High")
        else unless_empty f.priority (text_eq r.priority f.priority))
    && unless_unset f.case_type_id (λ n. r.case_type_id == n)
    && unless_unset f.investigator_id (λ n. exists (λ u. u == n) r.investigators)
    && unless_none f.date_from (λ d. leb d r.created_at)
    && unless_none f.date_to (λ d. ltb r.created_at (d + 86400))
    && (not f.overdue || (not (text_eq r.status (codes "Closed")) && is_before today r.due_date))

pub record CaseListing : Type 0 where
  pub items : List ListedCase
  pub shown : Page

unfoldable pub selected_cases :
    (like : Text → Text → Bool) (today : ℕ) (assignments : List (ℕ × ℕ))
    → Scope
    → CaseFilters
    → List ListedCase
    → List ListedCase
selected_cases like today assignments scope f rows =
    select (λ r. fits_case_filters like today f r && visible scope assignments r.case_id) rows

unfoldable pub list_cases :
    (like : Text → Text → Bool) (today : ℕ) (sort_by : Text → List ListedCase → List ListedCase)
    (assignments : List (ℕ × ℕ))
    → Scope
    → CaseFilters
    → ℕ
    → ℕ
    → List ListedCase
    → CaseListing
unfolding selected_cases
list_cases like today sort_by assignments scope f page per_page rows =
    let found = selected_cases like today assignments scope f rows in
    let shown = clamp page per_page (length found) in
    record {
      items = take per_page (drop ((shown.page - 1) * per_page) (sort_by f.sort found));
      shown = shown;
    }
