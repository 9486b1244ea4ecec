-- ===== src/CaseList/Pages.antt =====
-- The pages of the list of cases of app/cases/services.py.
use forge_x.Shared.{ℕ, ◌+◌, ◌≤◌, ◌<◌, ◌≡◌, ◌≢◌, true, false, ◌||◌, some, []}
use forge_x.Shared.Text.{Text, codes, text_eq}
use forge_x.CaseList.{CaseFilters, ListedCase}

-- What a case that fits the filters satisfies; 86,400 seconds are a day.
pub record CaseFits (today : ℕ) (f : CaseFilters) (r : ListedCase) : Type 0 where
  pub of_active : f.status ≡ codes "active" → text_eq r.status (codes "Closed") ≡ false
  pub of_status : f.status ≢ [] → f.status ≢ codes "active" → r.status ≡ f.status
  pub of_urgent :
      f.priority ≡ codes "urgent"
      → (text_eq r.priority (codes "Critical") || text_eq r.priority (codes "High")) ≡ true
  pub of_priority : f.priority ≢ [] → f.priority ≢ codes "urgent" → r.priority ≡ f.priority
  pub of_type : (n : ℕ) → f.case_type_id ≡ some n → n ≢ 0 → r.case_type_id ≡ n
  pub not_before_from : (d : ℕ) → f.date_from ≡ some d → d ≤ r.created_at
  pub on_or_before_to : (d : ℕ) → f.date_to ≡ some d → r.created_at < d + 86400
  pub late :
      f.overdue ≡ true
      → (text_eq r.status (codes "Closed") ≡ false)
        × ((d : ℕ) × (r.due_date ≡ some d) × (d < today))
