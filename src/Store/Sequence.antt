-- ===== src/Store/Sequence.antt =====
-- sp_next_reference of database/procedures.sql: the yearly counters of business codes.
use forge_x.Shared.{
  ◌==◌, if◌then◌else◌, find, exists, update_where, ℕ, ◌+◌, String, Bool, ◌&&◌, Option, none, some,
  List, [], ◌∷◌, ◌++◌,
}
use forge_x.Shared.Text.{Text, codes, decimal, padded}
use forge_x.Store.{Counter}

-- seq_name is one of 'CASE','EVIDENCE','EXAMINATION','REPORT'
abbrev pub case_seq : ℕ
case_seq = 0

abbrev pub evidence_seq : ℕ
evidence_seq = 1

abbrev pub examination_seq : ℕ
examination_seq = 2

abbrev pub report_seq : ℕ
report_seq = 3

abbrev pub is_counter : ℕ → ℕ → Counter → Bool
is_counter name year c = c.seq_name == name && c.seq_year == year

-- INSERT IGNORE of the counter with 0
unfoldable pub ensure_counter : ℕ → ℕ → List Counter → List Counter
ensure_counter name year cs =
    if exists (is_counter name year) cs
    then cs
    else cs ++ record { seq_name = name; seq_year = year; last_number = 0 } ∷ []

abbrev pub last_of : Option Counter → ℕ
last_of none = 0
last_of (some c) = c.last_number

unfoldable pub last_number : ℕ → ℕ → List Counter → ℕ
last_number name year cs = last_of (find (is_counter name year) cs)

-- The value and the counters after the call.
unfoldable pub next_reference : ℕ → ℕ → List Counter → ℕ × List Counter
unfolding ensure_counter last_number
next_reference name year cs =
    let rows = ensure_counter name year cs in
    let value = last_number name year rows + 1 in
    (value, update_where (is_counter name year) (λ c. record c { last_number = value }) rows)

-- CONCAT(prefix, year, '-', LPAD(value, width, '0'))
unfoldable pub business_code : String → ℕ → ℕ → ℕ → Text
business_code prefix year width value =
    codes prefix ++ decimal year ++ codes "-" ++ padded width value
