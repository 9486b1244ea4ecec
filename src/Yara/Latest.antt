-- ===== src/Yara/Latest.antt =====
-- The current version of a rule is the one saved last.
use forge_x.Shared.{
  ltb, leb, ◌==◌, ==_refl, Bool-cases, Option-cases, length, take, find, ℕ, ◌+◌, ◌<◌, ◌≡◌, refl,
  sym, ap, ◌∙◌, inl, inr, Bool, true, false, Option, none, some, List, [], ◌∷◌, ◌++◌, arith,
}
use forge_x.Shared.Text.{Text, strip, text_eq, or_empty}
use forge_x.Shared.Tables.{find_key}
use forge_x.Shared.Outcome.{Outcome, ok, ◌>>=◌, bind-ok, ◌>>◌, require, or_raise, require-then}
use forge_x.Access.{administrator, Actor, holds}
use forge_x.Store.{Request}
use forge_x.Yara.{
  YaraError, only_admins_manage, say_what_changed, rule_not_found, WorkerResult, Rule, RuleVersion,
  Library, can_manage, rule_by_id, higher, latest_version, validate, audit_rule, version_row,
  add_version, new_version,
}

higher-last :
    (v w : RuleVersion) → ltb w.version_no v.version_no ≡ true → higher v (some w) ≡ some v
higher-last v w h = ground (arith, h)

-- The number of a version is above that of the one found so far.
abbrev Above : RuleVersion → Option RuleVersion → Type 0
Above v none = Unit
Above v (some w) = w.version_no < v.version_no

higher-Above :
    (u v : RuleVersion) (rest : Option RuleVersion)
    → Above v (higher u rest)
    → Above v rest × (u.version_no < v.version_no)
higher-Above u v none h = (tt, h)
higher-Above u v (some w) h = (ground arith, ground arith)

latest_version-Above :
    (rid : ℕ) (vs : List RuleVersion) (v : RuleVersion)
    → v.rule_id ≡ rid
    → Above v (latest_version rid vs)
    → latest_version rid (vs ++ v ∷ []) ≡ some v
unfolding latest_version
latest_version-Above rid [] v e h = ground (arith, e, ==_refl rid)
latest_version-Above rid (u ∷ vs) v e h = elim (Bool-cases (u.rule_id == rid)) [
  | inl t ↦
      let above = higher-Above u v (latest_version rid vs) (rw t at h) in
      rw t (rw (latest_version-Above rid vs v e above.0) (ground (arith, above.1)))
  | inr t ↦ rw t (latest_version-Above rid vs v e (rw t at h))
]

latest_version-other :
    (rid : ℕ) (vs : List RuleVersion) (v : RuleVersion)
    → (v.rule_id == rid) ≡ false
    → latest_version rid (vs ++ v ∷ []) ≡ latest_version rid vs
unfolding latest_version
latest_version-other rid [] v h = ground (arith, h)
latest_version-other rid (u ∷ vs) v h = ground (arith, latest_version-other rid vs v h)

-- An accepted version
pub record Saved (sha256 : Text → Text) (run : Text → WorkerResult) (rid : ℕ) (user : Actor)
    (source : Text) (number : ℕ) (y y' : Library) : Type 0 where
  pub by_administrator : holds administrator user.roles ≡ true
  pub compiles : (run source).is_fine ≡ true
  pub former : RuleVersion
  pub former_latest : latest_version rid y.versions ≡ some former
  pub numbered : number ≡ former.version_no + 1
  pub changed : text_eq former.source_sha256 (sha256 source) ≡ false
  pub saved : RuleVersion
  pub appended : y'.versions ≡ y.versions ++ saved ∷ []
  pub saved_source : saved.source ≡ source
  pub saved_number : saved.version_no ≡ number
  pub now_latest : latest_version rid y'.versions ≡ some saved
  pub others :
      (other : ℕ)
      → (rid == other) ≡ false
      → latest_version other y'.versions ≡ latest_version other y.versions

module _ (sha256 : Text → Text) (same_name : Text → Text → Bool) (max_kb : ℕ)
    (utf8_length : Text → ℕ) (run : Text → WorkerResult) (q : Request) where
  add_version-appended :
      (vid : ℕ) (user : Actor) (source note : Text) (rule : Rule) (y y' : Library) (number : ℕ)
      → add_version sha256 same_name max_kb utf8_length run q vid user source note rule y
        ≡ ok (number, y')
      → (former : RuleVersion) × (latest_version rule.rule_id y.versions ≡ some former)
        × (text_eq former.source_sha256 (sha256 source) ≡ false)
        × (number ≡ former.version_no + 1)
        × (y'.versions
            ≡ y.versions
              ++ version_row sha256 same_name max_kb utf8_length run q vid rule.rule_id
                  (former.version_no + 1)
                  source
                  (take 255 (strip note))
                  user
                ∷ [])
  unfolding add_version audit_rule
  add_version-appended vid user source note rule y y' number h =
      elim (Option-cases (latest_version rule.rule_id y.versions)) [
        | inl e ↦ absurd (ground (arith, e))
        | inr f ↦ (f.0, f.1, ground (arith, f.1), ground (arith, f.1), ground (arith, f.1))
      ]

  validate-fine :
      (source : Text) (warnings : List Text)
      → validate max_kb utf8_length run source ≡ ok warnings
      → (run source).is_fine ≡ true
  unfolding validate
  validate-fine source warnings h = ground arith

  -- An accepted version is by an administrator, of a source that compiles and differs from the
  -- current one by its SHA-256. It has the next number and becomes the current version of its rule;
  -- the current versions of other rules stay, and the saved versions only grow by it.
  pub new_version-Saved :
      (vid rid : ℕ) (user : Actor) (source : Text) (note : Option Text) (y y' : Library)
      (number : ℕ)
      → new_version sha256 same_name max_kb utf8_length run q vid rid user source note y
        ≡ ok (number, y')
      → Saved sha256 run rid user source number y y'
  unfolding new_version can_manage rule_by_id version_row
  new_version-Saved vid rid user source note y y' number h =
      let save : Rule → Outcome YaraError (ℕ × Library) = λ rule.
        add_version sha256 same_name max_kb utf8_length run q vid user source (or_empty note) rule
          y in
      let found = or_raise (rule_by_id rid y) rule_not_found >>= save in
      let checked = validate max_kb utf8_length run source >>= λ w. found in
      let said = leb 3 (length (strip (or_empty note))) in
      let a =
        require-then (holds administrator user.roles) only_admins_manage
          (require said say_what_changed >> checked) h in
      let b = require-then said say_what_changed checked a.1 in
      let c = bind-ok (validate max_kb utf8_length run source) (λ w. found) b.1 in
      let d = bind-ok (or_raise (rule_by_id rid y) rule_not_found) save c.2 in
      let rule_found : find (λ r. r.rule_id == rid) y.rules ≡ some d.0 = ground (arith, d.1) in
      let same : d.0.rule_id ≡ rid = find_key (λ r. r.rule_id) rid y.rules rule_found in
      let e = add_version-appended vid user source (or_empty note) d.0 y y' number d.2 in
      let v =
        version_row sha256 same_name max_kb utf8_length run q vid d.0.rule_id (e.0.version_no + 1)
          source (take 255 (strip (or_empty note))) user in
      let former : latest_version rid y.versions ≡ some e.0 =
        ap (λ k. latest_version k y.versions) (sym same) ∙ e.1 in
      record {
        by_administrator = a.0;
        compiles = validate-fine source c.0 c.1;
        former = e.0;
        former_latest = former;
        numbered = e.3;
        changed = e.2;
        saved = v;
        appended = e.4;
        saved_source = refl;
        saved_number = sym e.3;
        now_latest =
            ap (latest_version rid) e.4
            ∙ latest_version-Above rid y.versions v same (rw former (omega arith));
        others = λ other k.
            ap (latest_version other) e.4 ∙ latest_version-other other y.versions v (rw same k);
      }
