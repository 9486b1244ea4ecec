-- ===== src/Yara/Scans.antt =====
-- `applicable_versions` and `run_scan` of app/yara/services.py. The worker is asked only when the
-- stored file is there, which `available` tells.
use forge_x.Shared.{
  ◌==◌, if◌then◌else◌, is_some, length, take, exists, ℕ, String, Bool, true, false, not, ◌&&◌, ◌||◌,
  Option, none, some, List, [], ◌∷◌, ◌++◌,
}
use forge_x.Shared.Text.{Text, codes, text_eq, or_empty, or_null, Piece, lit, num, render}
use forge_x.Shared.Outcome.{Outcome, ok, ◌>>◌, require}
use forge_x.Access.{CaseStatus, is_closed, Actor}
use forge_x.Store.{success, failure, Evidence, Store, Request}
use forge_x.Store.Audit.{record_audit}
use forge_x.Storage.Migrate.{StoredFile}
use forge_x.Yara.{
  YaraError, case_read_only, no_rules_apply, file_not_available, worker_missing, scan_refused,
  all_cases, selected_cases, WorkerFailure, time_limit, memory_limit, not_available, RawMatch,
  WorkerResult, Rule, RuleVersion, ScanStatus, completed_scan, failed_scan, timed_out,
  memory_exceeded, Scan, ScanRule, ScanMatch, Library, latest_version, is_associated,
}

-- A rule with its latest version, as the query joins them
pub record Applicable : Type 0 where
  pub rule : Rule
  pub version : RuleVersion

unfoldable pub in_scope : ℕ → Library → Rule → Bool
unfolding is_associated
in_scope cid y r = r.is_enabled && elim r.scope [
  | all_cases ↦ true
  | selected_cases ↦ exists (λ c. c.rule_id == r.rule_id && c.case_id == cid) y.rule_cases
]

abbrev pub with_version : Rule → Option RuleVersion → List Applicable → List Applicable
with_version r none rest = rest
with_version r (some v) rest = record { rule = r; version = v } ∷ rest

-- `applicable_versions`, in the order of the rules
unfoldable pub applicable_of : ℕ → Library → List Rule → List Applicable
unfolding in_scope latest_version
applicable_of cid y [] = []
applicable_of cid y (r ∷ rs) =
    let rest = applicable_of cid y rs in
    if in_scope cid y r then with_version r (latest_version r.rule_id y.versions) rest else rest

unfoldable pub applicable_versions : ℕ → Library → List Applicable
unfolding applicable_of
applicable_versions cid y = applicable_of cid y y.rules

-- The key of a rule in `namespaces`
unfoldable pub namespace_of : Applicable → Text
namespace_of a = render (lit "r" ∷ num a.rule.rule_id ∷ lit "v" ∷ num a.version.version_no ∷ [])

-- `namespaces.get`; a later rule of the same key would replace an earlier one.
unfoldable pub rule_named : List Applicable → Text → Option Applicable
unfolding namespace_of
rule_named [] ns = none
rule_named (a ∷ as_more) ns =
    let later = rule_named as_more ns in
    elim later [ some b ↦ some b | none ↦ if text_eq (namespace_of a) ns then some a else none ]

-- STATUS_FOR_ERROR, for a result that is not fine
abbrev pub status_for : Option WorkerFailure → ScanStatus
status_for (some time_limit) = timed_out
status_for (some memory_limit) = memory_exceeded
status_for other = failed_scan

unfoldable pub status_of : WorkerResult → ScanStatus
status_of r = if r.is_fine then completed_scan else status_for r.failure_type

abbrev pub is_completed_scan : ScanStatus → Bool
is_completed_scan completed_scan = true
is_completed_scan other = false

abbrev pub is_missing : Option WorkerFailure → Bool
is_missing (some not_available) = true
is_missing other = false

-- `result.get("matches", []) if status == "Completed" else []`
unfoldable pub kept_matches : WorkerResult → List RawMatch
unfolding status_of
kept_matches r = if is_completed_scan (status_of r) then r.matches else []

abbrev pub hash_agrees : Option Text → Text → Option Bool
hash_agrees none sha = none
hash_agrees (some []) sha = none
hash_agrees (some (c ∷ t)) sha = some (text_eq (c ∷ t) sha)

abbrev cut : ℕ → Option Text → Option Text
cut n value = or_null (take n (or_empty value))

abbrev message_of : Option Text → Text
message_of none = codes "The scan failed."
message_of (some []) = codes "The scan failed."
message_of (some (c ∷ t)) = c ∷ t

-- ", ".join(tags)
unfoldable pub joined_tags : List Text → Text
joined_tags [] = []
joined_tags (t ∷ []) = t
joined_tags (t ∷ u ∷ ts) = t ++ (codes ", " ++ joined_tags (u ∷ ts))

-- INSERT INTO yara_scan_rules, for every rule
unfoldable pub scan_rule_rows : ℕ → List Applicable → List ScanRule
scan_rule_rows sid [] = []
scan_rule_rows sid (a ∷ rest) =
    record { scan_id = sid; version_id = a.version.version_id } ∷ scan_rule_rows sid rest

unfoldable pub match_row : ℕ → RawMatch → Applicable → ScanMatch
unfolding joined_tags
match_row sid m a = record {
  scan_id = sid;
  version_id = a.version.version_id;
  rule_identifier = take 128 m.identifier;
  tags = or_null (take 500 (joined_tags m.tags));
  metadata_json = take 60000 m.metadata;
  patterns_json = m.patterns;
}

-- `if rule is None: continue`
unfoldable pub add_match : ℕ → RawMatch → Option Applicable → List ScanMatch → List ScanMatch
unfolding match_row
add_match sid m none rest = rest
add_match sid m (some a) rest = match_row sid m a ∷ rest

-- INSERT INTO yara_matches, for every match of a namespace that was asked for
unfoldable pub match_rows : ℕ → List Applicable → List RawMatch → List ScanMatch
unfolding rule_named add_match
match_rows sid rules [] = []
match_rows sid rules (m ∷ ms) =
    let rest = match_rows sid rules ms in add_match sid m (rule_named rules m.namespace) rest

unfoldable pub scan_row : Request → ℕ → Actor → Evidence → StoredFile → ℕ → WorkerResult → Scan
unfolding status_of kept_matches
scan_row q sid user item f rules_count r = record {
  scan_id = sid;
  evidence_id = item.evidence_id;
  file_id = f.file_id;
  status = status_of r;
  scanner_version = cut 40 r.scanner_version;
  file_sha256 = r.file_sha256;
  hash_matches = hash_agrees r.file_sha256 f.sha256;
  rules_count = rules_count;
  matched_count = length (kept_matches r);
  duration_ms = r.duration_ms;
  limits_note = cut 255 r.limits;
  error_message =
      if is_completed_scan (status_of r) then none else some (take 500 (message_of r.message));
  requested_by = user.user_id;
  started_at = q.now;
}

-- chk_ys_result
unfoldable pub scan_valid : Scan → Bool
scan_valid s =
    (is_completed_scan s.status && not (is_some s.error_message) && is_some s.file_sha256)
    || (not (is_completed_scan s.status) && is_some s.error_message && s.matched_count == 0)

abbrev pub status_name : ScanStatus → String
status_name completed_scan = "Completed"
status_name failed_scan = "Failed"
status_name timed_out = "Timed out"
status_name memory_exceeded = "Memory limit"

abbrev differs_note : Option Text → Text → List Piece
differs_note none sha = []
differs_note (some t) sha =
    if text_eq t sha then [] else lit "; stored file no longer matches its recorded SHA-256" ∷ []

unfoldable pub scan_audit :
    Request → ℕ → Actor → Evidence → StoredFile → ℕ → WorkerResult → Store → Store
unfolding status_of kept_matches
scan_audit q sid user item f rules_count r s =
    record_audit q
      record {
        user_id = some user.user_id;
        action = "evidence.yara_scan";
        entity_type = "Evidence";
        entity_ref = some item.evidence_code;
        outcome = if is_completed_scan (status_of r) then success else failure;
        details = some (
            lit "Scan #"
            ∷ num sid
            ∷ lit ": "
            ∷ lit (status_name (status_of r))
            ∷ lit ", "
            ∷ num rules_count
            ∷ lit " rules, "
            ∷ num (length (kept_matches r))
            ∷ lit " matched"
            ∷ differs_note r.file_sha256 f.sha256);
      }
      s

-- The transaction of `run_scan`
unfoldable pub record_scan :
    Request
    → ℕ
    → Actor
    → Evidence
    → StoredFile
    → List Applicable
    → WorkerResult
    → Library
    → Outcome YaraError (ℕ × Library)
unfolding scan_row scan_valid scan_rule_rows match_rows kept_matches scan_audit
record_scan q sid user item f rules r y = do
  require (scan_valid (scan_row q sid user item f (length rules) r)) scan_refused
  ok (
    sid,
    record y {
      scans = y.scans ++ scan_row q sid user item f (length rules) r ∷ [];
      scan_rules = y.scan_rules ++ scan_rule_rows sid rules;
      scan_matches = y.scan_matches ++ match_rows sid rules (kept_matches r);
      store = scan_audit q sid user item f (length rules) r y.store;
    },
  )

-- `run_scan`, of an item whose case has the given status
unfoldable pub run_scan :
    (worker : List Applicable → WorkerResult) (available : Bool)
    → Request
    → (sid : ℕ) → Actor
    → CaseStatus
    → Evidence
    → StoredFile
    → Library
    → Outcome YaraError (ℕ × Library)
unfolding applicable_versions record_scan
run_scan worker available q sid user case_status item f y = do
  require (not (is_closed case_status)) case_read_only
  require (not (length (applicable_versions item.case_id y) == 0)) no_rules_apply
  require available file_not_available
  require (not (is_missing ((worker (applicable_versions item.case_id y)).failure_type)))
      worker_missing
  record_scan q sid user item f (applicable_versions item.case_id y)
      (worker (applicable_versions item.case_id y)) y
