-- ===== src/Database/Messages.antt =====
-- The name of a violated constraint, read from MySQL's message.
use forge_x.Shared.{
  ◌==◌, if◌then◌else◌, ==_refl, append_nothing, append_assoc, exists, ℕ, ◌≡◌, refl, ◌∙◌, Bool,
  false, Option, none, some, [], ◌∷◌, ◌++◌, arith,
}
use forge_x.Shared.Text.{Text, codes}

-- What follows a prefix, if the text starts with it
unfoldable pub after_prefix : Text → Text → Option Text
after_prefix [] t = some t
after_prefix (p ∷ ps) [] = none
after_prefix (p ∷ ps) (c ∷ t) = let rest = after_prefix ps t in if p == c then rest else none

-- `[^']+'`: the text up to the quote, if there is one
unfoldable pub until_quote : Text → Option Text
until_quote [] = none
until_quote (c ∷ t) =
    let rest = until_quote t in
    if c == 39 then some [] else elim rest [ none ↦ none | some u ↦ some (c ∷ u) ]

abbrev not_empty : Option Text → Option Text
not_empty none = none
not_empty (some []) = none
not_empty (some (c ∷ t)) = some (c ∷ t)

unfoldable pub quoted_after : Text → Text → Option Text
unfolding after_prefix until_quote
quoted_after prefix t = elim (after_prefix prefix t) [
  | none ↦ none
  | some rest ↦ not_empty (until_quote rest)
]

abbrev pub or_else : Option Text → Option Text → Option Text
or_else none other = other
or_else (some t) other = some t

-- `(?:key|constraint) '([^']+)'` at the start of a text
unfoldable pub match_here : Text → Option Text
unfolding quoted_after
match_here t = or_else (quoted_after (codes "key '") t) (quoted_after (codes "constraint '") t)

-- re.search: the first place where it matches
unfoldable pub search_match : Text → Option Text
unfolding match_here
search_match [] = none
search_match (c ∷ t) = or_else (match_here (c ∷ t)) (search_match t)

-- `split(".")[-1]`
unfoldable pub after_last_dot : Text → Text → Text
after_last_dot part [] = part
after_last_dot part (c ∷ t) = after_last_dot (if c == b'.' then [] else part ++ c ∷ []) t

-- `ConstraintViolation.constraint`
unfoldable pub constraint_name : Text → Option Text
unfolding search_match after_last_dot
constraint_name detail = elim (search_match detail) [
  | none ↦ none
  | some name ↦ some (after_last_dot [] name)
]

unfoldable pub has_code : ℕ → Text → Bool
has_code c t = exists (λ d. d == c) t

until_quote-append :
    (name rest : Text) → has_code 39 name ≡ false → until_quote (name ++ 39 ∷ rest) ≡ some name
unfolding until_quote has_code exists
until_quote-append [] rest h = refl
until_quote-append (c ∷ t) rest h = ground (arith, until_quote-append t rest)

after_prefix-append : (p t : Text) → after_prefix p (p ++ t) ≡ some t
unfolding after_prefix
after_prefix-append [] t = refl
after_prefix-append (c ∷ p) t = ground (arith, after_prefix-append p t, ==_refl c)

after_last_dot-none :
    (part name : Text) → has_code b'.' name ≡ false → after_last_dot part name ≡ part ++ name
unfolding after_last_dot has_code exists
after_last_dot-none part [] h = append_nothing part
after_last_dot-none part (c ∷ t) h =
    let plain : (c == b'.') ≡ false = ground (arith, h) in
    rw plain
      (after_last_dot-none (part ++ c ∷ []) t (ground (arith, h)) ∙ append_assoc part (c ∷ []) t)

after_last_dot-table :
    (part table name : Text)
    → has_code b'.' name ≡ false
    → after_last_dot part (table ++ b'.' ∷ name) ≡ name
unfolding after_last_dot has_code exists
after_last_dot-table part [] name h = after_last_dot-none [] name h
after_last_dot-table part (c ∷ t) name h =
    after_last_dot-table (if c == b'.' then [] else part ++ c ∷ []) t name h

-- The name of a CHECK constraint, without a quote or a dot, is read back from the message in which
-- MySQL reports it.
pub constraint_name-check :
    (first : ℕ) (name : Text)
    → has_code 39 (first ∷ name) ≡ false
    → has_code b'.' (first ∷ name) ≡ false
    → constraint_name (codes "Check constraint '" ++ ((first ∷ name) ++ codes "' is violated."))
      ≡ some (first ∷ name)
unfolding constraint_name search_match match_here quoted_after after_prefix codes
constraint_name-check first name h k =
    let quoted = until_quote-append (first ∷ name) (codes " is violated.") h in
    let plain = after_last_dot-none [] (first ∷ name) k in ground (arith, quoted, plain)
