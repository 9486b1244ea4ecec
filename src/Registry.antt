-- ===== src/Registry.antt =====
-- The registry list of app/evidence/services.py: EvidenceFilters, from a query string and back to
-- one, and list_evidence. Dates and LIKE are parameters; the query string is a
-- function of its keys.
pub mod RoundTrip
pub mod Listing
pub mod Pages
pub mod Tests
use forge_x.Shared.{
  ltb, leb, ◌==◌, if◌then◌else◌, is_some, take, drop, exists, all, ℕ, zero, suc, ◌+◌, ◌-◌, ◌*◌, ◌≡◌,
  Bool, true, false, not, ◌&&◌, ◌||◌, Option, none, some, List, [], ◌∷◌,
}
use forge_x.Shared.Text.{
  Text, codes, strip, upper, text_eq, opt_text_eq, or_empty, or_null, decimal,
}
use forge_x.Evidence.Texts.{like_pattern}
use forge_x.Storage.{at_end}

-- The keys that the filters of evidence and of cases read
pub data ArgKey : Type 0 where
  key_q key_type key_status key_integrity key_case key_awaiting : ArgKey
  key_investigator key_file key_from key_to key_sort key_priority key_overdue : ArgKey

abbrev pub Args : Type 0
Args = ArgKey → Option Text

unfoldable pub is_digit : ℕ → Bool
is_digit c = leb b'0' c && leb c b'9'

-- `int` of digits, after those read so far
unfoldable pub number_of : ℕ → Text → ℕ
number_of n [] = n
number_of n (c ∷ t) = number_of (n * 10 + (c - 48)) t

-- `int(t) if t.isdigit() else None`, on ASCII
unfoldable pub digits : Text → Option ℕ
unfolding is_digit number_of
digits [] = none
digits (c ∷ t) = if all is_digit (c ∷ t) then some (number_of 0 (c ∷ t)) else none

-- `date.fromisoformat`, with none for its ValueError, and `isoformat`
pub record DateText : Type 0 where
  pub fromisoformat : Text → Option ℕ
  pub isoformat : ℕ → Text

-- What Python documents: the one reads back what the other prints, which is never empty.
pub record ReadBack (R : DateText) : Type 0 where
  pub read_date : (d : ℕ) → R.fromisoformat (R.isoformat d) ≡ some d
  pub date_shown : (d : ℕ) → or_null (R.isoformat d) ≡ some (R.isoformat d)

-- `_parse_date`
unfoldable pub parse_date : DateText → Option Text → Option ℕ
parse_date R none = none
parse_date R (some []) = none
parse_date R (some (c ∷ t)) = R.fromisoformat (c ∷ t)

pub record EvidenceFilters : Type 0 where
  pub query : Text
  pub evidence_type_id : Option ℕ
  pub status : Text
  pub integrity : Text
  pub case_reference : Text
  pub awaiting : Bool
  pub investigator_id : Option ℕ
  pub date_from : Option ℕ
  pub date_to : Option ℕ
  pub has_file : Text
  pub sort : Text

unfoldable pub is_among : List Text → Text → Bool
is_among texts t = exists (λ u. text_eq u t) texts

-- EVIDENCE_STATUSES
abbrev pub evidence_statuses : List Text
evidence_statuses =
    codes "In Transit"
    ∷ codes "In Storage"
    ∷ codes "Checked Out"
    ∷ codes "Under Examination"
    ∷ codes "Released"
    ∷ codes "Archived"
    ∷ []

-- INTEGRITY_STATUSES
abbrev pub integrity_statuses : List Text
integrity_statuses = codes "Verified" ∷ codes "Failed" ∷ codes "Pending" ∷ codes "Not Verified" ∷ []

-- The keys of SORT_COLUMNS
abbrev pub sort_columns : List Text
sort_columns =
    codes "code"
    ∷ codes "case"
    ∷ codes "type"
    ∷ codes "status"
    ∷ codes "integrity"
    ∷ codes "collected"
    ∷ codes "custodian"
    ∷ []

-- The keys of SORTS
unfoldable pub is_sort : Text → Bool
unfolding is_among
is_sort [] = false
is_sort (c ∷ t) =
    is_among sort_columns (c ∷ t)
    || (c == b'-' && is_among sort_columns t)
    || is_among (codes "newest" ∷ codes "oldest" ∷ []) (c ∷ t)

unfoldable pub after_digits : ℕ → Text → Option Text
after_digits zero t = some t
after_digits (suc n) [] = none
after_digits (suc n) (c ∷ t) =
    let rest = after_digits n t in if leb b'0' c && leb c b'9' then rest else none

abbrev after_dash : Option Text → Option Text
after_dash none = none
after_dash (some []) = none
after_dash (some (c ∷ t)) = if c == b'-' then some t else none

abbrev then_digits : ℕ → Option Text → Option Text
then_digits n none = none
then_digits n (some t) = after_digits n t

-- CASE_REF_RE.match, on ASCII digits
unfoldable pub is_case_reference : Text → Bool
unfolding after_digits
is_case_reference t =
    text_eq (take 3 t) (codes "FX-")
    && at_end (then_digits 4 (after_dash (after_digits 4 (drop 3 t))))

-- `args.get(key) if test else ""`
unfoldable pub kept : (Text → Bool) → Option Text → Text
kept test none = []
kept test (some t) = if test t then t else []

abbrev pub read : (Text → Option ℕ) → Option Text → Option ℕ
read reader none = none
read reader (some t) = reader t

abbrev pub sort_or_newest : Text → Text
sort_or_newest [] = codes "newest"
sort_or_newest (c ∷ t) = c ∷ t

-- `EvidenceFilters.from_args`
unfoldable pub from_args : DateText → Args → EvidenceFilters
unfolding kept is_case_reference is_sort is_among digits
from_args R args = record {
  query = take 100 (strip (or_empty (args key_q)));
  evidence_type_id = read digits (args key_type);
  status = kept (is_among evidence_statuses) (args key_status);
  integrity = kept (is_among integrity_statuses) (args key_integrity);
  case_reference = kept is_case_reference (some (upper (strip (or_empty (args key_case)))));
  awaiting = opt_text_eq (args key_awaiting) (some (codes "1"));
  investigator_id = read digits (args key_investigator);
  date_from = parse_date R (args key_from);
  date_to = parse_date R (args key_to);
  has_file = kept (is_among (codes "yes" ∷ codes "no" ∷ [])) (args key_file);
  sort = sort_or_newest (kept is_sort (args key_sort));
}

-- `n or ""`
abbrev pub shown_id : Option ℕ → Text
shown_id none = []
shown_id (some n) = if n == 0 then [] else decimal n

abbrev pub shown_date : (ℕ → Text) → Option ℕ → Text
shown_date isoformat none = []
shown_date isoformat (some d) = isoformat d

-- `EvidenceFilters.as_args`: only the values that are not empty
unfoldable pub as_args : DateText → EvidenceFilters → Args
as_args R f key_q = or_null f.query
as_args R f key_type = or_null (shown_id f.evidence_type_id)
as_args R f key_status = or_null f.status
as_args R f key_integrity = or_null f.integrity
as_args R f key_case = or_null f.case_reference
as_args R f key_awaiting = or_null (if f.awaiting then codes "1" else [])
as_args R f key_investigator = or_null (shown_id f.investigator_id)
as_args R f key_file = or_null f.has_file
as_args R f key_from = or_null (shown_date R.isoformat f.date_from)
as_args R f key_to = or_null (shown_date R.isoformat f.date_to)
as_args R f key_sort = or_null (if text_eq f.sort (codes "newest") then [] else f.sort)
as_args R f key_priority = none
as_args R f key_overdue = none

abbrev is_set : Option ℕ → Bool
is_set none = false
is_set (some n) = not (n == 0)

-- `EvidenceFilters.active`
unfoldable pub active : EvidenceFilters → Bool
active f =
    is_some (or_null f.query)
    || is_set f.evidence_type_id
    || is_some (or_null f.status)
    || is_some (or_null f.integrity)
    || is_some (or_null f.case_reference)
    || f.awaiting
    || is_set f.investigator_id
    || is_some f.date_from
    || is_some f.date_to
    || is_some (or_null f.has_file)

-- A row of the joined tables, as the conditions read it
pub record RegistryRow : Type 0 where
  pub evidence_code : Text
  pub description : Text
  pub evidence_type_id : ℕ
  pub current_status : Text
  pub integrity_status : Text
  pub case_id : ℕ
  pub case_reference : Text
  pub awaits_examination : Bool
  pub investigators : List ℕ
  pub collected_at : ℕ
  pub is_stored : Bool

abbrev pub unless_empty : Text → Bool → Bool
unless_empty [] test = true
unless_empty (c ∷ t) test = test

abbrev pub unless_unset : Option ℕ → (ℕ → Bool) → Bool
unless_unset none test = true
unless_unset (some n) test = n == 0 || test n

abbrev pub unless_none : Option ℕ → (ℕ → Bool) → Bool
unless_none none test = true
unless_none (some d) test = test d

-- The conditions of `list_evidence`; dates are the second at which their day starts.
unfoldable pub fits_filters : (like : Text → Text → Bool) → EvidenceFilters → RegistryRow → Bool
unfolding like_pattern
fits_filters like f r =
    unless_empty f.query
      (like r.evidence_code (like_pattern f.query) || like r.description (like_pattern f.query))
    && unless_unset f.evidence_type_id (λ n. r.evidence_type_id == n)
    && unless_empty f.status (text_eq r.current_status f.status)
    && unless_empty f.integrity (text_eq r.integrity_status f.integrity)
    && unless_empty f.case_reference (text_eq r.case_reference f.case_reference)
    && (not f.awaiting || r.awaits_examination)
    && unless_unset f.investigator_id (λ n. exists (λ u. u == n) r.investigators)
    && unless_none f.date_from (λ d. leb d r.collected_at)
    && unless_none f.date_to (λ d. ltb r.collected_at (d + 86400))
    && (not (text_eq f.has_file (codes "yes")) || r.is_stored)
    && (not (text_eq f.has_file (codes "no")) || not r.is_stored)
