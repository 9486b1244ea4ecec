-- ===== src/Yara/Tests.antt =====
-- Instances of the theorems about YARA: a second version of a rule, and a scan with it.
use forge_x.Shared.{length, find, exists, ℕ, ◌<◌, ◌≡◌, refl, true, false, none, some, [], ◌∷◌}
use forge_x.Shared.Text.{codes, is_space, lstrip, strip, text_eq}
use forge_x.Shared.Outcome.{Outcome, err, ok}
use forge_x.Access.{administrator, role_eq, open_case, is_closed, Actor, holds}
use forge_x.Store.Sample.{sample_item, sample, sample_request}
use forge_x.Storage.Migrate.{StoredFile}
use forge_x.Yara.{
  YaraError, all_cases, RawMatch, WorkerResult, Rule, RuleVersion, Library, can_manage, rule_by_id,
  latest_version, validate, add_version, new_version,
}
use forge_x.Yara.Scans.{
  in_scope, applicable_of, applicable_versions, status_of, kept_matches, scan_row, scan_valid,
  record_scan, run_scan,
}
use forge_x.Yara.Latest.{Saved, new_version-Saved}
use forge_x.Yara.Recorded.{ScanRecorded, run_scan-Recorded}

abbrev manager : Actor
manager = record { user_id = 1; roles = administrator ∷ [] }

abbrev rule_1 : Rule
rule_1 = record {
  rule_id = 1;
  name = codes "zip";
  description = none;
  author = none;
  scope = all_cases;
  is_enabled = true;
  created_by = 1;
  updated_at = 10;
}

abbrev version_1 : RuleVersion
version_1 = record {
  version_id = 1;
  rule_id = 1;
  version_no = 1;
  source = 97 ∷ [];
  source_sha256 = 97 ∷ [];
  change_note = [];
  created_by = 1;
}

abbrev shelf : Library
shelf = record {
  store = sample;
  rules = rule_1 ∷ [];
  versions = version_1 ∷ [];
  rule_cases = [];
  scans = [];
  scan_rules = [];
  scan_matches = [];
}

abbrev hit : RawMatch
hit = record {
  namespace = codes "r1v1";
  identifier = 122 ∷ [];
  tags = [];
  metadata = codes "[]";
  patterns = codes "[]";
}

abbrev success_result : WorkerResult
success_result = record {
  is_fine = true;
  failure_type = none;
  message = none;
  warnings = [];
  scanner_version = none;
  file_sha256 = some (98 ∷ []);
  matches = hit ∷ [];
  duration_ms = none;
  limits = none;
}

abbrev result_of : {A : Type 0} → A → Outcome YaraError (A × Library) → A × Library
result_of a (ok r) = r
result_of a (err e) = (a, shelf)

improved : ℕ × Library
improved = result_of 0 (
    new_version (λ t. t) text_eq 1 length (λ t. success_result) sample_request 2 1 manager (98 ∷ [])
      (some (codes "better")) shelf)

saves :
    new_version
      (λ t. t)
      text_eq
      1
      length
      (λ t. success_result)
      sample_request
      2
      1
      manager
      (98 ∷ [])
      (some (codes "better"))
      shelf
    ≡ ok (improved.0, improved.1)
unfolding improved new_version can_manage holds exists role_eq validate add_version latest_version
    rule_by_id find strip lstrip is_space codes text_eq
saves = refl

new_version-Saved_example :
    Saved (λ t. t) (λ t. success_result) 1 manager (98 ∷ []) improved.0 shelf improved.1
new_version-Saved_example =
    new_version-Saved (λ t. t) text_eq 1 length (λ t. success_result) sample_request 2 1 manager
      (98 ∷ []) (some (codes "better")) shelf improved.1 improved.0 saves

abbrev file_5 : StoredFile
file_5 = record {
  file_id = 1;
  evidence_id = 5;
  object_id = [];
  original_name = [];
  media_type = [];
  size_bytes = 1;
  sha256 = 98 ∷ [];
  stored_by = 7;
}

scanned : ℕ × Library
scanned = result_of 0 (
    run_scan (λ rules. success_result) true sample_request 3 manager open_case sample_item file_5
      shelf)

scans_run :
    run_scan
      (λ rules. success_result)
      true
      sample_request
      3
      manager
      open_case
      sample_item
      file_5
      shelf
    ≡ ok (scanned.0, scanned.1)
unfolding scanned run_scan applicable_versions applicable_of in_scope latest_version record_scan
    scan_valid scan_row status_of kept_matches
scans_run = refl

run_scan-Recorded_example :
    (is_closed open_case ≡ false)
    × (0 < length (applicable_versions 3 shelf))
    × ScanRecorded 3 manager sample_item file_5
        (applicable_versions 3 shelf)
        success_result
        shelf
        scanned.1
run_scan-Recorded_example =
    run_scan-Recorded (λ rules. success_result) true sample_request 3 manager open_case sample_item
      file_5 shelf scans_run
