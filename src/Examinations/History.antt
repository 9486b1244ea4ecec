-- ===== src/Examinations/History.antt =====
-- A call on examinations takes a row along the workflow and keeps every row valid.
use mathlib.Core.Option
use mathlib.Core.Path.{subst, ap}
use forge_x.Shared.{
  ◌==◌, if◌then◌else◌, ==_iff, Bool-cases, find, ℕ, ◌≡◌, refl, sym, ap, ◌∙◌, ◌⊎◌, inl, inr, Bool,
  true, some, List, [], ◌∷◌, ◌++◌, arith,
}
use forge_x.Shared.Tables.{find_key, find-append-old, find-update_where}
use forge_x.Store.{Examination, Store}
use forge_x.Examinations.{exam_by_id}
use forge_x.Examinations.Workflow.{Effect, exam_ok}
use forge_x.Examinations.Changes.{Changed}
use forge_x.Examinations.Steps.{ExamStep, exam_caller, ExamStep-cases}

-- A lookup after the change of the row that was found under `xid`
lookup_at :
    (uid xid : ℕ) (s s' : Store) (c : Changed uid xid s s') (j : ℕ)
    → exam_by_id s' j ≡ (if xid == j then Option.map c.change (exam_by_id s j) else exam_by_id s j)
unfolding exam_by_id
lookup_at uid xid s s' c j =
    let id = find_key (λ (x : Examination). x.examination_id) xid s.examinations c.found in
    rw (c.updated.table, id)
      (find-update_where (λ (x : Examination). x.examination_id) c.change c.keeps_id xid j
        s.examinations)

-- An examination never disappears, and a call leaves its row as it was or takes it one step along
-- the workflow.
pub ExamStep-Effect :
    (s s' : Store) (j : ℕ) (x : Examination) (call : ExamStep s s')
    → exam_by_id s j ≡ some x
    → (y : Examination) × (exam_by_id s' j ≡ some y) × ((y ≡ x) ⊎ Effect (exam_caller call) x y)
unfolding exam_by_id
ExamStep-Effect s s' j x t h = elim (ExamStep-cases s s' t) [
  | inl c ↦
      let ch = c.1 in
      elim (Bool-cases (c.0 == j)) [
        | inl e ↦
            let same : ch.row ≡ x = cc (rw ((==_iff c.0 j).0 e) at ch.found, h) in
            (
              ch.change x,
              lookup_at (exam_caller t) c.0 s s' ch j ∙ rw (e, h) refl,
              inr (subst (λ r. Effect (exam_caller t) r (ch.change r)) same ch.effect),
            )
        | inr e ↦ (x, lookup_at (exam_caller t) c.0 s s' ch j ∙ rw e h, inl refl)
      ]
  | inr r ↦ elim r [
    | inl e ↦ (x, ap (find (λ y. y.examination_id == j)) e ∙ h, inl refl)
    | inr n ↦ (
      x,
      ap (find (λ y. y.examination_id == j)) n.table
          ∙ find-append-old (λ (y : Examination). y.examination_id) j s.examinations (n.row ∷ []) h,
      inl refl,
    )
  ]
]

-- Every row satisfies the constraints, a completed one has a reviewer.
pub record AllOk (s : Store) : Type 0 where
  pub says : (j : ℕ) (x : Examination) → exam_by_id s j ≡ some x → exam_ok x ≡ true

new_row :
    (n x : Examination) (j : ℕ)
    → exam_ok n ≡ true
    → find (λ (y : Examination). y.examination_id == j) (n ∷ []) ≡ some x
    → exam_ok x ≡ true
unfolding find
new_row n x j v h = elim (Bool-cases (n.examination_id == j)) [
  | inl e ↦ let same : n ≡ x = ground arith in subst (λ r. exam_ok r ≡ true) same v
  | inr e ↦ absurd (ground arith)
]

find-append_cases :
    (p : Examination → Bool) (xs : List Examination) (n x : Examination)
    → find p (xs ++ n ∷ []) ≡ some x
    → (find p xs ≡ some x) ⊎ (find p (n ∷ []) ≡ some x)
unfolding find
find-append_cases p [] n x h = inr h
find-append_cases p (y ∷ ys) n x h = elim (Bool-cases (p y)) [
  | inl e ↦ inl (ground arith)
  | inr e ↦ rw e (find-append_cases p ys n x (rw e at h))
]

changed_row :
    (f : Examination → Examination) (row x : Examination)
    → exam_ok (f row) ≡ true
    → Option.map f (some row) ≡ some x
    → exam_ok x ≡ true
changed_row f row x v h = let same : f row ≡ x = cc in subst (λ r. exam_ok r ≡ true) same v

pub ExamStep-AllOk : (s s' : Store) → ExamStep s s' → AllOk s → AllOk s'
unfolding exam_by_id
ExamStep-AllOk s s' t v = record {
  says = λ j x h. elim (ExamStep-cases s s' t) [
    | inl c ↦
        let ch = c.1 in
        let h' = sym (lookup_at (exam_caller t) c.0 s s' ch j) ∙ h in
        elim (Bool-cases (c.0 == j)) [
          | inl e ↦
              let there : find (λ (y : Examination). y.examination_id == j) s.examinations
                  ≡ some ch.row =
                rw (← (==_iff c.0 j).0 e) ch.found in
              changed_row ch.change ch.row x ch.updated.valid (rw (e, there) at h')
          | inr e ↦ v.says j x (rw e at h')
        ]
    | inr r ↦ elim r [
      | inl e ↦ v.says j x (rw e at h)
      | inr n ↦
          elim (find-append_cases (λ y. y.examination_id == j) s.examinations n.row x
            (rw (n.table) at h)) [
              | inl old ↦ v.says j x old
              | inr new ↦ new_row n.row x j n.valid new
            ]
    ]
  ];
}
