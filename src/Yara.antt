-- ===== src/Yara.antt =====
-- app/yara/services.py: the rule library and the scans of stored files. The worker process of
-- runner.py, SHA-256 of a text and its length in UTF-8 are parameters.
pub mod Scans
pub mod Latest
pub mod Recorded
pub mod Tests
use forge_x.Shared.{
  ltb, leb, ◌==◌, if◌then◌else◌, is_some, length, take, find, exists, all, update_where,
  delete_where, ℕ, ◌+◌, ◌*◌, String, Bool, true, false, not, ◌&&◌, ◌||◌, Option, none, some, List,
  [], ◌∷◌, ◌++◌,
}
use forge_x.Shared.Text.{
  Text, codes, strip, text_eq, or_empty, or_null, or_null?, Piece, lit, num, val,
}
use forge_x.Shared.Outcome.{Outcome, ok, ◌>>=◌, ◌>>◌, require, or_raise}
use forge_x.Access.{administrator, is_closed, Actor, holds}
use forge_x.Store.{Store, Request}
use forge_x.Store.Roles.{case_by_id}
use forge_x.Store.Audit.{record_audit, done}

pub data YaraError : Type 0 where
  only_admins_manage choose_scope paste_the_source source_too_long rule_refused : YaraError
  name_taken say_what_changed rule_not_found same_source choose_open_case : YaraError
  already_associated case_read_only no_rules_apply file_not_available worker_missing : YaraError
  name_refused no_version scan_refused : YaraError

-- SCOPES
pub data RuleScope : Type 0 where
  all_cases selected_cases : RuleScope

-- `error_type` of a result
pub data WorkerFailure : Type 0 where
  compile_failure time_limit memory_limit not_available other_failure : WorkerFailure

-- A match as the worker reports it; the metadata and patterns are json.dumps of them.
pub record RawMatch : Type 0 where
  pub namespace : Text
  pub identifier : Text
  pub tags : List Text
  pub metadata : Text
  pub patterns : Text

-- What `runner.run_worker` returns
pub record WorkerResult : Type 0 where
  pub is_fine : Bool
  pub failure_type : Option WorkerFailure
  pub message : Option Text
  pub warnings : List Text
  pub scanner_version : Option Text
  pub file_sha256 : Option Text
  pub matches : List RawMatch
  pub duration_ms : Option ℕ
  pub limits : Option Text

pub record Rule : Type 0 where
  pub rule_id : ℕ
  pub name : Text
  pub description : Option Text
  pub author : Option Text
  pub scope : RuleScope
  pub is_enabled : Bool
  pub created_by : ℕ
  pub updated_at : ℕ

pub record RuleVersion : Type 0 where
  pub version_id : ℕ
  pub rule_id : ℕ
  pub version_no : ℕ
  pub source : Text
  pub source_sha256 : Text
  pub change_note : Text
  pub created_by : ℕ

pub record RuleCase : Type 0 where
  pub rule_id : ℕ
  pub case_id : ℕ
  pub added_by : ℕ

pub data ScanStatus : Type 0 where
  completed_scan failed_scan timed_out memory_exceeded : ScanStatus

pub record Scan : Type 0 where
  pub scan_id : ℕ
  pub evidence_id : ℕ
  pub file_id : ℕ
  pub status : ScanStatus
  pub scanner_version : Option Text
  pub file_sha256 : Option Text
  pub hash_matches : Option Bool
  pub rules_count : ℕ
  pub matched_count : ℕ
  pub duration_ms : Option ℕ
  pub limits_note : Option Text
  pub error_message : Option Text
  pub requested_by : ℕ
  pub started_at : ℕ

pub record ScanRule : Type 0 where
  pub scan_id : ℕ
  pub version_id : ℕ

pub record ScanMatch : Type 0 where
  pub scan_id : ℕ
  pub version_id : ℕ
  pub rule_identifier : Text
  pub tags : Option Text
  pub metadata_json : Text
  pub patterns_json : Text

pub record Library : Type 0 where
  pub store : Store
  pub rules : List Rule
  pub versions : List RuleVersion
  pub rule_cases : List RuleCase
  pub scans : List Scan
  pub scan_rules : List ScanRule
  pub scan_matches : List ScanMatch

unfoldable pub can_manage : Actor → Bool
can_manage user = holds administrator user.roles

unfoldable pub rule_by_id : ℕ → Library → Option Rule
rule_by_id rid y = find (λ r. r.rule_id == rid) y.rules

abbrev pub higher : RuleVersion → Option RuleVersion → Option RuleVersion
higher v none = some v
higher v (some w) = if ltb w.version_no v.version_no then some v else some w

-- `WHERE rule_id = rid ORDER BY version_no DESC LIMIT 1`
unfoldable pub latest_version : ℕ → List RuleVersion → Option RuleVersion
latest_version rid [] = none
latest_version rid (v ∷ vs) =
    let rest = latest_version rid vs in if v.rule_id == rid then higher v rest else rest

-- chk_yr_name
unfoldable pub rule_name_valid : Text → Bool
rule_name_valid name =
    leb 2 (length name)
    && leb (length name) 100
    && all
        (λ c.
          (leb b'A' c && leb c b'Z')
          || (leb b'a' c && leb c b'z')
          || (leb b'0' c && leb c b'9')
          || c == b' '
          || c == b'.'
          || c == b'_'
          || c == b'-')
        name

abbrev has_source : Text → Bool
has_source source = is_some (or_null (strip source))

-- `validate`, with the worker's answer on the source
unfoldable pub validate :
    (max_kb : ℕ) (utf8_length : Text → ℕ) (run : Text → WorkerResult)
    → Text
    → Outcome YaraError (List Text)
validate max_kb utf8_length run source = do
  require (has_source source) paste_the_source
  require (leb (utf8_length source) (max_kb * 1024)) source_too_long
  require ((run source).is_fine) rule_refused
  ok ((run source).warnings)

abbrev pub scope_name : RuleScope → String
scope_name all_cases = "All cases"
scope_name selected_cases = "Selected cases"

-- audit.record(action, "YARA rule", name, …)
unfoldable pub audit_rule : Request → ℕ → String → Text → List Piece → Library → Library
audit_rule q uid action name details y = record y {
  store = record_audit q (done uid action "YARA rule" name details) y.store;
}

module _ (sha256 : Text → Text) (same_name : Text → Text → Bool) (max_kb : ℕ)
    (utf8_length : Text → ℕ) (run : Text → WorkerResult) (q : Request) where
  unfoldable pub new_rule : ℕ → Actor → Text → Option Text → Option Text → RuleScope → Rule
  new_rule rid user name description author scope = record {
    rule_id = rid;
    name = name;
    description = or_null? description;
    author = or_null? author;
    scope = scope;
    is_enabled = true;
    created_by = user.user_id;
    updated_at = q.now;
  }

  unfoldable pub version_row : ℕ → ℕ → ℕ → Text → Text → Actor → RuleVersion
  version_row vid rid number source note user = record {
    version_id = vid;
    rule_id = rid;
    version_no = number;
    source = source;
    source_sha256 = sha256 source;
    change_note = note;
    created_by = user.user_id;
  }

  -- `create_rule`, for a scope that is one of SCOPES; `rid` and `vid` are the ids of its rows.
  unfoldable pub create_rule :
      (rid vid : ℕ)
      → Actor
      → Text
      → Option Text
      → Option Text
      → RuleScope
      → Text
      → Library
      → Outcome YaraError ((ℕ × List Text) × Library)
  unfolding can_manage validate new_rule version_row audit_rule rule_name_valid
  create_rule rid vid user name description author scope source y = do
    require (can_manage user) only_admins_manage
    warnings ← validate max_kb utf8_length run source
    require (not (exists (λ r. same_name r.name name) y.rules)) name_taken
    require (rule_name_valid name) name_refused
    ok (
      (rid, warnings),
      audit_rule q user.user_id "yara.rule_create" name
          (lit "Version 1, scope " ∷ lit (scope_name scope) ∷ [])
          record y {
            rules = y.rules ++ new_rule rid user name description author scope ∷ [];
            versions = y.versions ++ version_row vid rid 1 source (codes "First version") user ∷ [];
          },
    )

  -- The transaction of `new_version`, on the rule that it has locked; a rule without a version, which
  -- create_rule does not leave, makes the code raise a TypeError.
  unfoldable pub add_version :
      (vid : ℕ) → Actor → Text → Text → Rule → Library → Outcome YaraError (ℕ × Library)
  unfolding version_row audit_rule latest_version
  add_version vid user source note rule y = do
    current ← or_raise (latest_version rule.rule_id y.versions) no_version
    require (not (text_eq current.source_sha256 (sha256 source))) same_source
    let number = current.version_no + 1
    ok (
      number,
      audit_rule q user.user_id "yara.rule_version" rule.name
          (lit "Version " ∷ num number ∷ lit ": " ∷ val (take 300 (strip note)) ∷ [])
          record y {
            versions =
                y.versions
                ++ version_row vid rule.rule_id number source (take 255 (strip note)) user ∷ [];
            rules =
                update_where (λ r. r.rule_id == rule.rule_id) (λ r. record r { updated_at = q.now })
                  y.rules;
          },
    )

  -- `new_version`
  unfoldable pub new_version :
      (vid rid : ℕ) → Actor → Text → Option Text → Library → Outcome YaraError (ℕ × Library)
  unfolding can_manage validate add_version rule_by_id
  new_version vid rid user source change_note y = do
    require (can_manage user) only_admins_manage
    require (leb 3 (length (strip (or_empty change_note)))) say_what_changed
    warnings ← validate max_kb utf8_length run source
    rule ← or_raise (rule_by_id rid y) rule_not_found
    add_version vid user source (or_empty change_note) rule y

abbrev is_all : RuleScope → Bool
is_all all_cases = true
is_all selected_cases = false

abbrev differs : Bool → Bool → Bool
differs true b = not b
differs false b = b

module _ (q : Request) where
  -- `_update_rule`, with the statement as a change of the library
  unfoldable pub update_rule :
      ℕ → Actor → (Library → Library) → String → List Piece → Library → Outcome YaraError Library
  unfolding can_manage rule_by_id audit_rule
  update_rule rid user statement action details y = do
    require (can_manage user) only_admins_manage
    rule ← or_raise (rule_by_id rid y) rule_not_found
    ok (audit_rule q user.user_id action rule.name details (statement y))

  unfoldable pub set_enabled : ℕ → Actor → Bool → Library → Outcome YaraError Library
  unfolding update_rule
  set_enabled rid user enabled y =
      update_rule rid user
        (λ l. record l {
          rules =
              update_where (λ r. r.rule_id == rid)
                (λ r.
                  if differs enabled r.is_enabled
                  then record r { is_enabled = enabled; updated_at = q.now }
                  else r)
                l.rules;
        })
        (if enabled then "yara.rule_enable" else "yara.rule_disable")
        (lit (if enabled then "Enabled" else "Disabled") ∷ []) y

  -- `set_scope`, for a scope that is one of SCOPES
  unfoldable pub set_scope : ℕ → Actor → RuleScope → Library → Outcome YaraError Library
  unfolding update_rule
  set_scope rid user scope y =
      update_rule rid user
        (λ l. record l {
          rules =
              update_where (λ r. r.rule_id == rid)
                (λ r.
                  if differs (is_all scope) (is_all r.scope)
                  then record r { scope = scope; updated_at = q.now }
                  else r)
                l.rules;
        })
        "yara.rule_scope" (lit "Scope: " ∷ lit (scope_name scope) ∷ []) y

  unfoldable pub is_associated : ℕ → ℕ → RuleCase → Bool
  is_associated rid cid rc = rc.rule_id == rid && rc.case_id == cid

  unfoldable pub add_case : ℕ → Actor → ℕ → Library → Outcome YaraError Library
  unfolding update_rule is_associated
  add_case rid user cid y = do
    case ←
        or_raise (find (λ c. c.case_id == cid && not (is_closed c.status)) y.store.cases)
          choose_open_case
    require (not (exists (is_associated rid cid) y.rule_cases)) already_associated
    update_rule rid user
        (λ l. record l {
          rule_cases =
              l.rule_cases ++ record { rule_id = rid; case_id = cid; added_by = user.user_id } ∷ [];
        })
        "yara.rule_case_add" (lit "Associated with " ∷ val case.case_reference ∷ []) y

  unfoldable pub remove_case : ℕ → Actor → ℕ → Library → Outcome YaraError Library
  unfolding update_rule is_associated
  remove_case rid user cid y =
      update_rule rid user
        (λ l. record l { rule_cases = delete_where (is_associated rid cid) l.rule_cases })
        "yara.rule_case_remove"
        (lit "No longer associated with "
          ∷ elim (case_by_id y.store cid) [ none ↦ lit "None" | some c ↦ val c.case_reference ]
          ∷ [])
        y
