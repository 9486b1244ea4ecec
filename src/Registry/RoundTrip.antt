-- ===== src/Registry/RoundTrip.antt =====
-- The links of the pager carry the filters: what as_args writes, from_args reads back.
use forge_x.Shared.{
  ltb, ◌==◌, if◌then◌else◌, ==_iff, Bool-cases, take, all, ℕ, zero, suc, ◌+◌, ◌-◌, ◌*◌, ◌/◌, ◌%◌,
  ◌≤◌, ◌<◌, ◌≡◌, refl, ap, ◌∙◌, ◌≢◌, inl, inr, Bool, true, false, Option, none, some, List, [], ◌∷◌,
  arith,
}
use forge_x.Shared.Text.{
  Text, codes, strip, upper, text_eq, text_eq_iff, opt_text_eq, or_empty, or_null, decimal_digits,
  decimal,
}
use forge_x.Registry.{
  key_q, key_status, key_integrity, key_case, key_file, key_sort, Args, is_digit, number_of, digits,
  DateText, ReadBack, parse_date, is_among, evidence_statuses, integrity_statuses, is_sort,
  is_case_reference, kept, read, sort_or_newest, from_args, shown_id, shown_date, as_args,
}

take-take : {A : Type 0} (n : ℕ) (xs : List A) → take n (take n xs) ≡ take n xs
take-take zero xs = refl
take-take (suc n) [] = refl
take-take (suc n) (x ∷ xs) = ap (λ l. x ∷ l) (take-take n xs)

or_empty-or_null : (t : Text) → or_empty (or_null t) ≡ t
or_empty-or_null [] = refl
or_empty-or_null (c ∷ t) = refl

kept-again :
    (test : Text → Bool) (o : Option Text) → kept test (or_null (kept test o)) ≡ kept test o
unfolding kept
kept-again test none = refl
kept-again test (some []) = ground arith
kept-again test (some (c ∷ t)) = ground arith

kept-twice :
    (test : Text → Bool) (t : Text) → kept test (some (kept test (some t))) ≡ kept test (some t)
unfolding kept
kept-twice test t = ground arith

sort-again :
    (o : Option Text)
    → let s = sort_or_newest (kept is_sort o) in
      sort_or_newest (kept is_sort (or_null (if text_eq s (codes "newest") then [] else s))) ≡ s
unfolding kept text_eq codes
sort-again none = refl
sort-again (some []) = unfold is_sort in refl
sort-again (some (c ∷ t)) = elim (Bool-cases (is_sort (c ∷ t))) [
  | inr e ↦ rw e refl
  | inl e ↦ elim (Bool-cases (text_eq (c ∷ t) (codes "newest"))) [
    | inl n ↦ let same = (text_eq_iff (c ∷ t) (codes "newest")).0 n in ground (arith, e, n, same)
    | inr n ↦ ground (arith, e, n)
  ]
]

awaiting-again :
    (b : Bool) → opt_text_eq (or_null (if b then codes "1" else [])) (some (codes "1")) ≡ b
unfolding opt_text_eq text_eq codes
awaiting-again true = refl
awaiting-again false = refl

number_of-decimal_digits :
    (fuel n : ℕ) (rest : Text)
    → n < fuel
    → number_of 0 (decimal_digits fuel n rest) ≡ number_of n rest
unfolding number_of decimal_digits
number_of-decimal_digits zero n rest h = absurd (omega arith)
number_of-decimal_digits (suc fuel) n rest h = elim (Bool-cases (ltb n 10)) [
  | inl e ↦ rw e (ap (λ m. number_of m rest) (omega arith))
  | inr e ↦
      let big : 10 ≤ n = ground (arith, e) in
      let ih = number_of-decimal_digits fuel (n / 10) ((48 + n % 10) ∷ rest) (omega (arith, big)) in
      let same : n / 10 * 10 + (48 + n % 10 - 48) ≡ n = omega arith in
      rw e (ih ∙ ap (λ m. number_of m rest) same)
]

all-decimal_digits :
    (fuel n : ℕ) (rest : Text)
    → n < fuel
    → all is_digit (decimal_digits fuel n rest) ≡ all is_digit rest
unfolding all is_digit decimal_digits
all-decimal_digits zero n rest h = absurd (omega arith)
all-decimal_digits (suc fuel) n rest h = elim (Bool-cases (ltb n 10)) [
  | inl e ↦ ground (arith, e)
  | inr e ↦
      let big : 10 ≤ n = ground (arith, e) in
      let ih = all-decimal_digits fuel (n / 10) ((48 + n % 10) ∷ rest) (omega (arith, big)) in
      let small : n % 10 < 10 = omega arith in ground (arith, e, ih, small)
]

-- A text that is not empty
abbrev pub IsShown : Text → Type 0
IsShown [] = ⊥
IsShown (c ∷ t) = Unit

decimal_digits-IsShown :
    (fuel n : ℕ) (rest : Text) → n < fuel → IsShown (decimal_digits fuel n rest)
unfolding decimal_digits
decimal_digits-IsShown zero n rest h = absurd (omega arith)
decimal_digits-IsShown (suc fuel) n rest h = elim (Bool-cases (ltb n 10)) [
  | inl e ↦ rw e tt
  | inr e ↦
      let big : 10 ≤ n = ground (arith, e) in
      rw e (decimal_digits-IsShown fuel (n / 10) ((48 + n % 10) ∷ rest) (omega (arith, big)))
]

or_null-IsShown : (t : Text) → IsShown t → or_null t ≡ some t
or_null-IsShown [] h = absurd h
or_null-IsShown (c ∷ t) h = refl

digits-IsShown : (t : Text) → IsShown t → all is_digit t ≡ true → digits t ≡ some (number_of 0 t)
unfolding digits
digits-IsShown [] h k = absurd h
digits-IsShown (c ∷ t) h k = ground (arith, k)

decimal_shown : (n : ℕ) → or_null (decimal n) ≡ some (decimal n)
unfolding decimal
decimal_shown n = or_null-IsShown (decimal n) (decimal_digits-IsShown (suc n) n [] (omega arith))

-- The digits that str prints are read back by int.
pub digits-decimal : (n : ℕ) → digits (decimal n) ≡ some n
unfolding decimal all number_of
digits-decimal n =
    digits-IsShown (decimal n) (decimal_digits-IsShown (suc n) n [] (omega arith))
      (all-decimal_digits (suc n) n [] (omega arith))
    ∙ ap (λ m. some m) (number_of-decimal_digits (suc n) n [] (omega arith))

module _ (R : DateText) (back : ReadBack R) where
  id-again : (o : Option ℕ) → o ≢ some 0 → read digits (or_null (shown_id o)) ≡ o
  id-again none h = refl
  id-again (some n) h = elim (Bool-cases (n == 0)) [
    | inl e ↦ absurd (h (ap (λ m. some m) ((==_iff n 0).0 e)))
    | inr e ↦ rw (e, decimal_shown n) (digits-decimal n)
  ]

  parse_date-some : (t : Text) → or_null t ≡ some t → parse_date R (some t) ≡ R.fromisoformat t
  unfolding parse_date
  parse_date-some [] h = ground (arith, h)
  parse_date-some (c ∷ t) h = refl

  date-again : (o : Option ℕ) → parse_date R (or_null (shown_date R.isoformat o)) ≡ o
  unfolding parse_date
  date-again none = refl
  date-again (some d) =
      rw (back.date_shown d)
        (parse_date-some (R.isoformat d) (back.date_shown d) ∙ back.read_date d)

  -- If dates are read back as they are printed, filters that were read from a query string are read
  -- back from the one they write, if their ids are not 0, another strip does not change the search
  -- text, and another strip and upper do not change the case reference.
  pub from_args-as_args :
      (args : Args)
      → strip (from_args R args).query ≡ (from_args R args).query
      → upper (strip (from_args R args).case_reference) ≡ (from_args R args).case_reference
      → (from_args R args).evidence_type_id ≢ some 0
      → (from_args R args).investigator_id ≢ some 0
      → from_args R (as_args R (from_args R args)) ≡ from_args R args
  unfolding from_args as_args
  from_args-as_args args searched referred typed investigated =
      let f = from_args R args in
      let q : take 100 (strip (or_empty (or_null f.query))) ≡ f.query =
        ap (λ t. take 100 (strip t)) (or_empty-or_null f.query)
        ∙ ap (take 100) searched
        ∙ take-take 100 (strip (or_empty (args key_q))) in
      let c : kept is_case_reference (some (upper (strip (or_empty (or_null f.case_reference)))))
          ≡ f.case_reference =
        ap (λ t. kept is_case_reference (some (upper (strip t))))
          (or_empty-or_null f.case_reference)
        ∙ ap (λ t. kept is_case_reference (some t)) referred
        ∙ kept-twice is_case_reference (upper (strip (or_empty (args key_case)))) in
      let typed_again = id-again f.evidence_type_id typed in
      let investigated_again = id-again f.investigator_id investigated in
      let from_again = date-again f.date_from in
      let to_again = date-again f.date_to in
      let status_again = kept-again (is_among evidence_statuses) (args key_status) in
      let integrity_again = kept-again (is_among integrity_statuses) (args key_integrity) in
      let file_again = kept-again (is_among (codes "yes" ∷ codes "no" ∷ [])) (args key_file) in
      let wait_again = awaiting-again f.awaiting in
      let sorted_again = sort-again (args key_sort) in
      λ i. record {
        query = q i;
        evidence_type_id = typed_again i;
        status = status_again i;
        integrity = integrity_again i;
        case_reference = c i;
        awaiting = wait_again i;
        investigator_id = investigated_again i;
        date_from = from_again i;
        date_to = to_again i;
        has_file = file_again i;
        sort = sorted_again i;
      }
