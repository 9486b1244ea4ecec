-- ===== src/Reports/Approval.antt =====
-- Reports follow their review: approval by someone who is not the author, and nothing after it.
use mathlib.Core.Option
use mathlib.Core.Path.{subst}
use forge_x.Shared.{
  ◌==◌, if◌then◌else◌, ==_iff, Bool-cases, find, ℕ, ◌≡◌, refl, sym, ap, ◌∙◌, ◌⊎◌, inl, inr, false,
  some, List, [], ◌∷◌, ◌++◌, arith,
}
use forge_x.Shared.Tables.{find_key, find-append-old, find-update_where}
use forge_x.Access.{approved}
use forge_x.Store.{Report, ReportVersion, Store}
use forge_x.Reports.{report_by_id, versions_of}
use forge_x.Reports.Workflow.{ReportEffect, submits, approves, returns, ReportChanged}
use forge_x.Reports.Versions.{versions_of-append}
use forge_x.Reports.History.{
  ReportStep, caller, StepOutcome, row_changed, version_added, report_added, tables_kept,
  ReportStep-StepOutcome, ReportRun, no_call, next_call,
}

lookup_row :
    (uid rid : ℕ) (s s' : Store) (c : ReportChanged uid rid s s') (j : ℕ)
    → report_by_id s' j
      ≡ (if rid == j then Option.map c.change (report_by_id s j) else report_by_id s j)
unfolding report_by_id
lookup_row uid rid s s' c j =
    let id = find_key (λ (r : Report). r.report_id) rid s.reports c.found in
    rw (c.table, id)
      (find-update_where (λ (r : Report). r.report_id) c.change c.keeps_id rid j s.reports)

After : ℕ → Store → ℕ → Report → Type 0
After uid s' j r = (t : Report) × (report_by_id s' j ≡ some t) × ((t ≡ r) ⊎ ReportEffect uid r t)

row-After :
    (uid rid : ℕ) (s s' : Store) (j : ℕ) (r : Report)
    → ReportChanged uid rid s s'
    → report_by_id s j ≡ some r
    → After uid s' j r
unfolding After
row-After uid rid s s' j r c h = elim (Bool-cases (rid == j)) [
  | inl e ↦
      let same : c.row ≡ r = cc (rw ((==_iff rid j).0 e) at c.found, h) in
      (
        c.change r,
        lookup_row uid rid s s' c j ∙ rw (e, h) refl,
        inr (subst (λ x. ReportEffect uid x (c.change x)) same c.effect),
      )
  | inr e ↦ (r, lookup_row uid rid s s' c j ∙ rw e h, inl refl)
]

kept-After :
    (uid : ℕ) (s s' : Store) (j : ℕ) (r : Report) (new : List Report)
    → s'.reports ≡ s.reports ++ new
    → report_by_id s j ≡ some r
    → After uid s' j r
unfolding report_by_id After
kept-After uid s s' j r new e h = (
  r,
  ap (find (λ x. x.report_id == j)) e
      ∙ find-append-old (λ (x : Report). x.report_id) j s.reports new h,
  inl refl,
)

append-nil : {A : Type 0} (xs : List A) → xs ≡ xs ++ []
append-nil [] = refl
append-nil (x ∷ xs) = ap (λ ys. x ∷ ys) (append-nil xs)

step-After :
    (uid : ℕ) (s s' : Store) (j : ℕ) (r : Report)
    → StepOutcome uid s s'
    → report_by_id s j ≡ some r
    → After uid s' j r
step-After uid s s' j r (row_changed rid c) h = row-After uid rid s s' j r c h
step-After uid s s' j r (version_added v) h =
    kept-After uid s s' j r [] (v.reports ∙ append-nil s.reports) h
step-After uid s s' j r (report_added id a c s1 v k) h =
    kept-After uid s s' j r (v.row ∷ []) (k.reports ∙ v.reports) h
step-After uid s s' j r (tables_kept k) h =
    kept-After uid s s' j r [] (k.reports ∙ append-nil s.reports) h

-- A report never disappears, and a call leaves its row as it was or takes it one step along the
-- review: Draft to Under Review, and from there to Approved or back to Draft, when the
-- caller is not its author; an approved report names the caller as the one who approved it.
pub ReportStep-Effect :
    (s s' : Store) (j : ℕ) (r : Report) (call : ReportStep s s')
    → report_by_id s j ≡ some r
    → (t : Report) × (report_by_id s' j ≡ some t) × ((t ≡ r) ⊎ ReportEffect (caller call) r t)
unfolding After
ReportStep-Effect s s' j r t h = step-After (caller t) s s' j r (ReportStep-StepOutcome s s' t) h

approved_kept :
    (uid : ℕ) (r t : Report) → r.status ≡ approved → (t ≡ r) ⊎ ReportEffect uid r t → t ≡ r
approved_kept uid r t a (inl e) = e
approved_kept uid r t a (inr (submits e f)) = absurd (ground arith)
approved_kept uid r t a (inr (approves e f g k)) = absurd (ground arith)
approved_kept uid r t a (inr (returns e f g)) = absurd (ground arith)

other_versions :
    (vs : List ReportVersion) (v : ReportVersion) (j : ℕ)
    → (v.report_id == j) ≡ false
    → versions_of (vs ++ v ∷ []) j ≡ versions_of vs j
other_versions vs v j e = versions_of-append vs v j ∙ rw e refl

step-versions :
    (uid : ℕ) (s s' : Store) (j : ℕ) (r : Report)
    → StepOutcome uid s s'
    → report_by_id s j ≡ some r
    → r.status ≡ approved
    → versions_of s'.versions j ≡ versions_of s.versions j
step-versions uid s s' j r (row_changed rid c) h a = ap (λ vs. versions_of vs j) c.versions
step-versions uid s s' j r (version_added v) h a = elim (Bool-cases (v.version.report_id == j)) [
  | inl e ↦
      let same : v.report ≡ r = cc (rw ((==_iff v.version.report_id j).0 e) at v.found, h) in
      absurd (ground (arith, v.is_a_draft, ap (λ x. x.status) same))
  | inr e ↦ ap (λ vs. versions_of vs j) v.versions ∙ other_versions s.versions v.version j e
]
step-versions uid s s' j r (report_added id n c s1 v k) h a =
    elim (Bool-cases (v.version.report_id == j)) [
      | inl e ↦
          let named : id ≡ j = sym v.fresh_id ∙ (==_iff v.version.report_id j).0 e in
          absurd (ground (arith, rw named at n, h))
      | inr e ↦
          ap (λ vs. versions_of vs j) (k.versions ∙ v.versions)
          ∙ other_versions s.versions v.version j e
    ]
step-versions uid s s' j r (tables_kept k) h a = ap (λ vs. versions_of vs j) k.versions

-- An approved report is final: whatever calls follow, its row and its versions stay as they are.
pub approved_is_final :
    (s s' : Store) (j : ℕ) (r : Report)
    → ReportRun s s'
    → report_by_id s j ≡ some r
    → r.status ≡ approved
    → (report_by_id s' j ≡ some r) × (versions_of s'.versions j ≡ versions_of s.versions j)
approved_is_final s _ j r no_call h a = (h, refl)
approved_is_final s s' j r (next_call {s1} run t) h a =
    let before = approved_is_final s s1 j r run h a in
    let e = ReportStep-Effect s1 s' j r t before.0 in
    (
      e.1 ∙ ap some (approved_kept (caller t) r e.0 a e.2),
      step-versions (caller t) s1 s' j r (ReportStep-StepOutcome s1 s' t) before.0 a ∙ before.1,
    )
