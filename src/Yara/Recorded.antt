-- ===== src/Yara/Recorded.antt =====
-- What an accepted scan has recorded.
use forge_x.Shared.{
  ◌==◌, ==_refl, Bool-cases, Option-cases, length, exists, ℕ, ◌<◌, ◌≡◌, refl, ap, ◌∙◌, ◌↔◌, inl,
  inr, Bool, true, false, not, Option, none, some, List, [], ◌∷◌, ◌++◌, map, arith,
}
use forge_x.Shared.Text.{Text}
use forge_x.Shared.Tables.{All}
use forge_x.Shared.Outcome.{ok, ◌>>◌, require, require-then}
use forge_x.Access.{CaseStatus, is_closed, Actor}
use forge_x.Store.{Evidence, Request}
use forge_x.Storage.Migrate.{StoredFile}
use forge_x.Yara.{
  case_read_only, no_rules_apply, file_not_available, worker_missing, RawMatch, WorkerResult, Rule,
  RuleVersion, Scan, ScanMatch, Library, latest_version,
}
use forge_x.Yara.Scans.{
  Applicable, in_scope, with_version, applicable_of, applicable_versions, rule_named, status_of,
  is_completed_scan, is_missing, kept_matches, scan_rule_rows, match_row, add_match, match_rows,
  scan_row, record_scan, run_scan,
}

-- A version that applies to a case: the latest one of an enabled rule in its scope
pub record Applies (cid : ℕ) (y : Library) (a : Applicable) : Type 0 where
  pub enabled : a.rule.is_enabled ≡ true
  pub scoped : in_scope cid y a.rule ≡ true
  pub is_latest : latest_version a.rule.rule_id y.versions ≡ some a.version

with_version-Applies :
    (cid : ℕ) (y : Library) (r : Rule) (v : Option RuleVersion) (rest : List Applicable)
    → in_scope cid y r ≡ true
    → latest_version r.rule_id y.versions ≡ v
    → All (Applies cid y) rest
    → All (Applies cid y) (with_version r v rest)
unfolding in_scope
with_version-Applies cid y r none rest h k all_rest = all_rest
with_version-Applies cid y r (some v) rest h k all_rest =
    (record { enabled = ground (arith, h); scoped = h; is_latest = k }, all_rest)

applicable_of-Applies :
    (cid : ℕ) (y : Library) (rs : List Rule) → All (Applies cid y) (applicable_of cid y rs)
unfolding applicable_of
applicable_of-Applies cid y [] = tt
applicable_of-Applies cid y (r ∷ rs) = elim (Bool-cases (in_scope cid y r)) [
  | inl t ↦ rw t (
      with_version-Applies cid y r (latest_version r.rule_id y.versions) (applicable_of cid y rs) t
        refl (applicable_of-Applies cid y rs))
  | inr t ↦ rw t (applicable_of-Applies cid y rs)
]

unfoldable pub is_version_of : List Applicable → ScanMatch → Bool
is_version_of rules m = exists (λ a. a.version.version_id == m.version_id) rules

-- A match of this scan by one of its versions
abbrev pub OfScan : ℕ → List Applicable → ScanMatch → Type 0
OfScan sid rules m = (m.scan_id ≡ sid) × (is_version_of rules m ≡ true)

rule_named-exists :
    (rules : List Applicable) (ns : Text) (a : Applicable)
    → rule_named rules ns ≡ some a
    → exists (λ b. b.version.version_id == a.version.version_id) rules ≡ true
unfolding rule_named exists
rule_named-exists [] ns a h = cc
rule_named-exists (b ∷ bs) ns a h = elim (Option-cases (rule_named bs ns)) [
  | inr c ↦
      let same : c.0 ≡ a = ground (arith, c.1) in
      ground (arith, rule_named-exists bs ns a (c.1 ∙ ap (λ x. some x) same))
  | inl e ↦
      let same : b ≡ a = ground (arith, e) in
      ground (arith, ==_refl a.version.version_id, ap (λ x. x.version.version_id) same)
]

add_match-OfScan :
    (sid : ℕ) (rules : List Applicable) (m : RawMatch) (o : Option Applicable)
    (rest : List ScanMatch)
    → rule_named rules m.namespace ≡ o
    → All (OfScan sid rules) rest
    → All (OfScan sid rules) (add_match sid m o rest)
unfolding add_match match_row is_version_of
add_match-OfScan sid rules m none rest h v = v
add_match-OfScan sid rules m (some a) rest h v =
    ((refl, rule_named-exists rules m.namespace a h), v)

match_rows-OfScan :
    (sid : ℕ) (rules : List Applicable) (ms : List RawMatch)
    → All (OfScan sid rules) (match_rows sid rules ms)
unfolding match_rows
match_rows-OfScan sid rules [] = tt
match_rows-OfScan sid rules (m ∷ ms) =
    add_match-OfScan sid rules m (rule_named rules m.namespace) (match_rows sid rules ms) refl
      (match_rows-OfScan sid rules ms)

scan_rule_rows-map :
    (sid : ℕ) (rules : List Applicable)
    → scan_rule_rows sid rules
      ≡ map (λ a. record { scan_id = sid; version_id = a.version.version_id }) rules
unfolding scan_rule_rows
scan_rule_rows-map sid [] = refl
scan_rule_rows-map sid (a ∷ rest) =
    ap (λ l. record { scan_id = sid; version_id = a.version.version_id } ∷ l)
      (scan_rule_rows-map sid rest)

-- What a scan has recorded
pub record ScanRecorded (sid : ℕ) (user : Actor) (item : Evidence) (f : StoredFile)
    (rules : List Applicable) (r : WorkerResult) (y y' : Library) : Type 0 where
  pub applied : All (Applies item.case_id y) rules
  pub scan : Scan
  pub scanned :
      (scan.scan_id ≡ sid) × (scan.evidence_id ≡ item.evidence_id) × (scan.file_id ≡ f.file_id)
  pub by_user : scan.requested_by ≡ user.user_id
  pub scan_added : y'.scans ≡ y.scans ++ scan ∷ []
  pub completed_iff : (is_completed_scan scan.status ≡ true) ↔ (r.is_fine ≡ true)
  pub rules_counted : scan.rules_count ≡ length rules
  pub rules_added :
      y'.scan_rules
      ≡ y.scan_rules ++ map (λ a. record { scan_id = sid; version_id = a.version.version_id }) rules
  pub found : List ScanMatch
  pub found_added : y'.scan_matches ≡ y.scan_matches ++ found
  pub found_by_rules : All (OfScan sid rules) found
  pub none_unless_fine : r.is_fine ≡ false → found ≡ []
  pub library_kept : (y'.rules ≡ y.rules) × (y'.versions ≡ y.versions)

status_of-fine : (r : WorkerResult) → (is_completed_scan (status_of r) ≡ true) ↔ (r.is_fine ≡ true)
unfolding status_of
status_of-fine r = ground arith

kept_matches-none : (r : WorkerResult) → r.is_fine ≡ false → kept_matches r ≡ []
unfolding kept_matches status_of
kept_matches-none r h = ground arith

record_scan-Recorded :
    (q : Request) (sid : ℕ) (user : Actor) (item : Evidence) (f : StoredFile)
    (rules : List Applicable) (r : WorkerResult) (y : Library) {id : ℕ} {y' : Library}
    → All (Applies item.case_id y) rules
    → record_scan q sid user item f rules r y ≡ ok (id, y')
    → ScanRecorded sid user item f rules r y y'
unfolding record_scan scan_row
record_scan-Recorded q sid user item f rules r y v h = record {
  applied = v;
  scan = scan_row q sid user item f (length rules) r;
  scanned = (refl, refl, refl);
  by_user = refl;
  scan_added = ground arith;
  completed_iff = status_of-fine r;
  rules_counted = refl;
  rules_added = ground (arith, scan_rule_rows-map sid rules);
  found = match_rows sid rules (kept_matches r);
  found_added = ground arith;
  found_by_rules = match_rows-OfScan sid rules (kept_matches r);
  none_unless_fine = λ k. unfold match_rows in ap (match_rows sid rules) (kept_matches-none r k);
  library_kept = (ground arith, ground arith);
}

-- An accepted scan is of an item whose case is not closed, by the versions that apply to it, of
-- which there is one: the latest of enabled rules in its scope. It adds one scan of the item and
-- its file by the user, Completed exactly if the worker succeeded, a row with the id of each of the
-- versions and matches of those versions only, none unless the worker succeeded, and leaves the
-- rule library as it was.
pub run_scan-Recorded :
    (worker : List Applicable → WorkerResult) (available : Bool) (q : Request) (sid : ℕ)
    (user : Actor) (case_status : CaseStatus) (item : Evidence) (f : StoredFile) (y : Library)
    {id : ℕ} {y' : Library}
    → run_scan worker available q sid user case_status item f y ≡ ok (id, y')
    → (is_closed case_status ≡ false)
      × (0 < length (applicable_versions item.case_id y))
      × ScanRecorded sid user item f
          (applicable_versions item.case_id y)
          (worker (applicable_versions item.case_id y))
          y
          y'
unfolding run_scan applicable_versions
run_scan-Recorded worker available q sid user case_status item f y h =
    let rules = applicable_of item.case_id y y.rules in
    let r = worker rules in
    let write = record_scan q sid user item f rules r y in
    let there = require (not (is_missing r.failure_type)) worker_missing >> write in
    let with_file = require available file_not_available >> there in
    let some_rule = require (not (length rules == 0)) no_rules_apply >> with_file in
    let a = require-then (not (is_closed case_status)) case_read_only some_rule h in
    let b = require-then (not (length rules == 0)) no_rules_apply with_file a.1 in
    let c = require-then available file_not_available there b.1 in
    let d = require-then (not (is_missing r.failure_type)) worker_missing write c.1 in
    (
      ground (arith, a.0),
      ground (arith, b.0),
      record_scan-Recorded q sid user item f rules r y
          (applicable_of-Applies item.case_id y y.rules) d.1,
    )
