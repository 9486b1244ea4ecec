-- ===== src/Reports/Versions.antt =====
-- Version numbers of a report: 1, 2, 3, … without gaps, in the order in which they were saved.
use forge_x.Shared.{
  ◌==◌, if◌then◌else◌, ==_iff, Bool-cases, length, length-append, select, ℕ, zero, suc, ◌+◌, max,
  ◌≡◌, refl, ap, ◌∙◌, inl, inr, List, [], ◌∷◌, ◌++◌, arith,
}
use forge_x.Store.{ReportVersion}
use forge_x.Reports.{versions_of, max_version}

unfoldable pub up_to : ℕ → List ℕ
up_to zero = []
up_to (suc n) = up_to n ++ suc n ∷ []

unfoldable pub numbers : List ReportVersion → List ℕ
numbers [] = []
numbers (v ∷ vs) = v.version_no ∷ numbers vs

unfoldable pub count_of : List ReportVersion → ℕ → ℕ
count_of vs rid = length (versions_of vs rid)

-- The versions of every report are numbered from 1 without gaps.
pub record GapFree (vs : List ReportVersion) : Type 0 where
  pub says : (rid : ℕ) → numbers (versions_of vs rid) ≡ up_to (count_of vs rid)

pub versions_of-append :
    (vs : List ReportVersion) (v : ReportVersion) (rid : ℕ)
    → versions_of (vs ++ v ∷ []) rid
      ≡ (if v.report_id == rid then versions_of vs rid ++ v ∷ [] else versions_of vs rid)
unfolding versions_of select
versions_of-append [] v rid = refl
versions_of-append (x ∷ xs) v rid = ground (arith, versions_of-append xs v rid)

numbers-append :
    (vs : List ReportVersion) (v : ReportVersion)
    → numbers (vs ++ v ∷ []) ≡ numbers vs ++ v.version_no ∷ []
unfolding numbers
numbers-append [] v = refl
numbers-append (x ∷ xs) v = ap (λ ns. x.version_no ∷ ns) (numbers-append xs v)

greatest : List ℕ → ℕ
greatest [] = 0
greatest (n ∷ ns) = max n (greatest ns)

greatest-append : (ns : List ℕ) (n : ℕ) → greatest (ns ++ n ∷ []) ≡ max (greatest ns) n
unfolding greatest
greatest-append [] n = omega arith
greatest-append (m ∷ ms) n = omega (arith, greatest-append ms n)

greatest-up_to : (n : ℕ) → greatest (up_to n) ≡ n
unfolding up_to greatest
greatest-up_to zero = refl
greatest-up_to (suc n) = greatest-append (up_to n) (suc n) ∙ omega (arith, greatest-up_to n)

max_version-greatest : (vs : List ReportVersion) → max_version vs ≡ greatest (numbers vs)
unfolding max_version numbers greatest
max_version-greatest [] = refl
max_version-greatest (v ∷ vs) = ap (max v.version_no) (max_version-greatest vs)

-- Without gaps, MAX(version_no) is the number of versions.
pub GapFree-max :
    (vs : List ReportVersion) (rid : ℕ)
    → GapFree vs
    → max_version (versions_of vs rid) ≡ count_of vs rid
GapFree-max vs rid g =
    max_version-greatest (versions_of vs rid)
    ∙ ap greatest (g.says rid)
    ∙ greatest-up_to (count_of vs rid)

-- A version with the next number keeps the numbers without gaps.
pub append-GapFree :
    (vs : List ReportVersion) (v : ReportVersion)
    → v.version_no ≡ count_of vs v.report_id + 1
    → GapFree vs
    → GapFree (vs ++ v ∷ [])
unfolding count_of up_to
append-GapFree vs v e g = record {
  says = λ rid.
      let a = versions_of-append vs v rid in
      elim (Bool-cases (v.report_id == rid)) [
        | inl same ↦
            let n : length (versions_of vs rid ++ v ∷ []) ≡ suc (length (versions_of vs rid)) =
              length-append (versions_of vs rid) (v ∷ []) ∙ omega arith in
            let k : v.version_no ≡ suc (length (versions_of vs rid)) =
              rw ((==_iff v.report_id rid).0 same) at e ∙ omega arith in
            rw (a, same, n, numbers-append (versions_of vs rid) v, g.says rid, k) refl
        | inr other ↦ rw (a, other) (g.says rid)
      ];
}
