-- ===== src/CaseList/Tests.antt =====
-- Instances of the theorem about the list of cases: an investigator's search for active cases.
use forge_x.Shared.{ℕ, none, some, List, [], ◌∷◌}
use forge_x.Shared.Text.{codes}
use forge_x.Access.{investigator, Scope, scope_of}
use forge_x.Registry.{key_status, Args, DateText}
use forge_x.CaseList.{CaseFilters, case_filters, ListedCase}

abbrev no_dates : DateText
no_dates = record { fromisoformat = λ t. none; isoformat = λ d. [] }

abbrev active_cases : Args
active_cases key_status = some (codes "active")
active_cases other = none

abbrev reader : Scope
reader = scope_of (record { user_id = 7; roles = investigator ∷ [] })

abbrev case_row : ℕ → ListedCase
case_row c = record {
  case_id = c;
  case_reference = [];
  title = [];
  status = codes "Open";
  priority = codes "High";
  case_type_id = 1;
  created_at = 1;
  due_date = none;
  investigators = [];
}

abbrev two_cases : List ListedCase
two_cases = case_row 3 ∷ case_row 4 ∷ []

abbrev search : CaseFilters
search = case_filters no_dates active_cases
