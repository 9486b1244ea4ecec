-- ===== src/Auth/Passwords.antt =====
-- `password_problems` of app/auth/passwords.py. Python's isalpha and isdigit, and str.lower, are
-- parameters; so is the set COMMON_PASSWORDS.
use forge_x.Shared.{
  ltb, leb, ◌==◌, if◌then◌else◌, length, exists, ℕ, ◌≤◌, ◌≡◌, ◌↔◌, Bool, true, false, not, ◌&&◌,
  ◌||◌, Option, none, some, List, [], ◌∷◌, arith,
}
use forge_x.Shared.Text.{Text, text_eq, or_empty}

-- What the rules use of Python's texts
pub record TextRules : Type 0 where
  pub is_alpha : ℕ → Bool
  pub is_digit : ℕ → Bool
  pub lowered : Text → Text
  pub common : List Text

pub data Problem : Type 0 where
  too_short too_long letter_and_number contains_username too_common : Problem

-- `any(test(c) for c in password)`
unfoldable pub any_char : (ℕ → Bool) → Text → Bool
any_char test t = exists test t

unfoldable pub starts_with : Text → Text → Bool
starts_with t [] = true
starts_with [] (c ∷ p) = false
starts_with (d ∷ t) (c ∷ p) = d == c && starts_with t p

-- `part in text`
unfoldable pub contains : Text → Text → Bool
unfolding starts_with
contains [] part = starts_with [] part
contains (c ∷ t) part = starts_with (c ∷ t) part || contains t part

abbrev pub includes_name : TextRules → Option Text → Text → Bool
includes_name rules none password = false
includes_name rules (some username) password =
    leb 3 (length username) && contains (rules.lowered password) (rules.lowered username)

abbrev problem_if : Bool → Problem → List Problem → List Problem
problem_if test problem rest = if test then problem ∷ rest else rest

unfoldable pub password_problems : TextRules → Option Text → Option Text → List Problem
unfolding any_char
password_problems rules given username =
    let password = or_empty given in
    problem_if (ltb (length password) 12) too_short (
      problem_if (ltb 128 (length password)) too_long (
        problem_if (not (any_char rules.is_alpha password && any_char rules.is_digit password))
          letter_and_number
          (problem_if (includes_name rules username password) contains_username
            (problem_if (exists (text_eq (rules.lowered password)) rules.common) too_common []))))

-- A password has no problem exactly if it has 12 to 128 characters, a letter and a digit, does not
-- contain a username of three characters or more, and is not among the common ones, but for case.
pub password_problems-none :
    (rules : TextRules) (password : Text) (username : Option Text)
    → (password_problems rules (some password) username ≡ []) ↔ (
        (12 ≤ length password)
        × (length password ≤ 128)
        × (exists rules.is_alpha password ≡ true)
        × (exists rules.is_digit password ≡ true)
        × (includes_name rules username password ≡ false)
        × (exists (text_eq (rules.lowered password)) rules.common ≡ false))
unfolding password_problems any_char
password_problems-none rules password username = (λ h. ground arith, λ h. ground arith)
