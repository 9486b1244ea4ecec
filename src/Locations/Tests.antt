-- ===== src/Locations/Tests.antt =====
-- An instance of the theorem about locations: the vault of the sample is deactivated.
use forge_x.Shared.{find, ◌≡◌, refl, false, none, some, [], arith}
use forge_x.Shared.Outcome.{Outcome, err, ok, is_ok}
use forge_x.Store.{stored, Store}
use forge_x.Store.Sample.{sample, sample_request}
use forge_x.Custody.Procedures.{Transfer}
use forge_x.Custody.Changes.{transfer}
use forge_x.Locations.{LocationError, get_location, set_location_active}
use forge_x.Locations.Inactive.{deactivated-refuses}

abbrev to_vault : Transfer
to_vault = record {
  evidence_id = 5;
  expected_custodian_id = 1;
  action = stored;
  to_custodian_id = 1;
  location_id = some 2;
  location_note = none;
  evidence_condition = [];
  seal_number = none;
  reason = [];
  occurred_at = some 40;
  recorded_by = 1;
}

abbrev store_of : Outcome LocationError Store → Store
store_of (ok s) = s
store_of (err e) = sample

without_vault : Store
without_vault = store_of (set_location_active sample_request 1 2 false sample)

deactivates : set_location_active sample_request 1 2 false sample ≡ ok without_vault
unfolding without_vault set_location_active get_location find
deactivates = refl

deactivated-refuses_example :
    (is_ok (transfer sample_request to_vault without_vault) ≡ false)
    × (without_vault.evidence ≡ sample.evidence)
    × (without_vault.custody ≡ sample.custody)
deactivated-refuses_example =
    deactivated-refuses sample_request sample_request 1 2 sample without_vault to_vault deactivates
      refl (omega arith)
