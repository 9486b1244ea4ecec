-- ===== src/Registry/Tests.antt =====
-- Instances of the theorems about the registry: a search and its link.
use forge_x.Shared.{all, ℕ, ◌≡◌, refl, ◌≢◌, false, Option, none, some, List, [], ◌∷◌, arith}
use forge_x.Shared.Text.{Text, codes, is_space, lstrip, strip, upper, text_eq}
use forge_x.Access.{investigator, Scope, scope_of}
use forge_x.Registry.{
  key_q, key_type, key_status, Args, is_digit, number_of, digits, DateText, ReadBack,
  EvidenceFilters, is_case_reference, kept, from_args, as_args, RegistryRow,
}
use forge_x.Registry.RoundTrip.{from_args-as_args}

abbrev one_character : Text → Option ℕ
one_character [] = none
one_character (c ∷ t) = some c

-- Dates as one character
abbrev short_dates : DateText
short_dates = record { fromisoformat = one_character; isoformat = λ d. d ∷ [] }

short_dates-ReadBack : ReadBack short_dates
short_dates-ReadBack = record { read_date = λ d. refl; date_shown = λ d. refl }

abbrev typed_in : Args
typed_in key_q = some (codes " disk ")
typed_in key_type = some (codes "12")
typed_in key_status = some (codes "Lost")
typed_in other = none

searched : strip (from_args short_dates typed_in).query ≡ (from_args short_dates typed_in).query
unfolding from_args strip lstrip is_space codes
searched = refl

referred :
    upper (strip (from_args short_dates typed_in).case_reference)
    ≡ (from_args short_dates typed_in).case_reference
unfolding from_args strip lstrip is_space codes upper kept is_case_reference text_eq
referred = refl

twelve : (from_args short_dates typed_in).evidence_type_id ≢ some 0
unfolding from_args digits all is_digit number_of codes
twelve h = ground (arith, h)

anyone : (from_args short_dates typed_in).investigator_id ≢ some 0
unfolding from_args
anyone h = ground (arith, h)

from_args-as_args_example :
    from_args short_dates (as_args short_dates (from_args short_dates typed_in))
    ≡ from_args short_dates typed_in
from_args-as_args_example =
    from_args-as_args short_dates short_dates-ReadBack typed_in searched referred twelve anyone

abbrev reader : Scope
reader = scope_of (record { user_id = 7; roles = investigator ∷ [] })

abbrev row_of : ℕ → RegistryRow
row_of c = record {
  evidence_code = [];
  description = [];
  evidence_type_id = 12;
  current_status = [];
  integrity_status = [];
  case_id = c;
  case_reference = [];
  awaits_examination = false;
  investigators = [];
  collected_at = 1;
  is_stored = false;
}

abbrev three_rows : List RegistryRow
three_rows = row_of 3 ∷ row_of 4 ∷ row_of 3 ∷ []

abbrev search : EvidenceFilters
search = from_args short_dates typed_in
