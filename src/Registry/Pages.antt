-- ===== src/Registry/Pages.antt =====
-- The pages of the registry of app/evidence/services.py.
use forge_x.Shared.{ℕ, ◌+◌, ◌≤◌, ◌<◌, ◌≡◌, refl, ◌≢◌, true, false, some, [], ◌∷◌}
use forge_x.Shared.Text.{Text, codes, text_eq, text_eq_iff}
use forge_x.Registry.{EvidenceFilters, RegistryRow, unless_empty}

-- What a row that fits the filters satisfies; 86,400 seconds are a day.
pub record RowFits (f : EvidenceFilters) (r : RegistryRow) : Type 0 where
  pub of_type : (n : ℕ) → f.evidence_type_id ≡ some n → n ≢ 0 → r.evidence_type_id ≡ n
  pub of_status : f.status ≢ [] → r.current_status ≡ f.status
  pub of_integrity : f.integrity ≢ [] → r.integrity_status ≡ f.integrity
  pub of_case : f.case_reference ≢ [] → r.case_reference ≡ f.case_reference
  pub awaited : f.awaiting ≡ true → r.awaits_examination ≡ true
  pub not_before_from : (d : ℕ) → f.date_from ≡ some d → d ≤ r.collected_at
  pub on_or_before_to : (d : ℕ) → f.date_to ≡ some d → r.collected_at < d + 86400
  pub with_file : f.has_file ≡ codes "yes" → r.is_stored ≡ true
  pub without_file : f.has_file ≡ codes "no" → r.is_stored ≡ false

pub same_unless_empty : (t u : Text) → unless_empty t (text_eq u t) ≡ true → t ≢ [] → u ≡ t
same_unless_empty [] u h k = absurd (k refl)
same_unless_empty (c ∷ t) u h k = (text_eq_iff u (c ∷ t)).0 h
