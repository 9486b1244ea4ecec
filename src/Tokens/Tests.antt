-- ===== src/Tokens/Tests.antt =====
-- Instances of the theorems about API tokens: user 7 creates one and signs in with it.
use forge_x.Shared.{find, all, count, ℕ, zero, suc, ◌≡◌, refl, some, [], ◌∷◌, arith}
use forge_x.Shared.Text.{Text, codes, is_space, lstrip, strip, text_eq}
use forge_x.Shared.Outcome.{Outcome, err, ok}
use forge_x.Access.{investigator, Actor}
use forge_x.Store.Sample.{sample, sample_request}
use forge_x.Tokens.{
  TokenError, Api, is_day_choice, is_live, active_of, new_token, token_text, create_token,
  is_urlsafe, is_hex_digit, secret_matches, token_prefix_of, token_matches, token_owner,
}
use forge_x.Tokens.Active.{WithinLimit, create_token-WithinLimit}

abbrev repeat : ℕ → ℕ → Text
repeat c zero = []
repeat c (suc n) = c ∷ repeat c n

abbrev owner : Actor
owner = record { user_id = 7; roles = investigator ∷ [] }

abbrev before : Api
before = record { store = sample; tokens = [] }

abbrev pair_of : Outcome TokenError (Text × Api) → Text × Api
pair_of (ok r) = r
pair_of (err e) = ([], before)

made : Text × Api
made = pair_of (
    create_token (λ t. t) (λ t. t) sample_request owner (some (82 ∷ 83 ∷ [])) 30 (repeat 48 8)
      (repeat 65 43) before)

makes :
    create_token
      (λ t. t)
      (λ t. t)
      sample_request
      owner
      (some (82 ∷ 83 ∷ []))
      30
      (repeat 48 8)
      (repeat 65 43)
      before
    ≡ ok (made.0, made.1)
unfolding made create_token strip lstrip is_space is_day_choice active_of count
makes = refl

before-WithinLimit : WithinLimit 50 []
unfolding active_of count
before-WithinLimit = record { says = λ uid. omega arith }

create_token-WithinLimit_example : WithinLimit 50 made.1.tokens
create_token-WithinLimit_example =
    create_token-WithinLimit (λ t. t) (λ t. t) sample_request owner (some (82 ∷ 83 ∷ [])) 30
      (repeat 48 8) (repeat 65 43) before made.1 made.0 makes before-WithinLimit

signs_in : token_owner (λ t. t) sample_request made.0 made.1.tokens ≡ some (7, 9)
unfolding made create_token strip lstrip is_space is_day_choice active_of count token_owner
    token_prefix_of text_eq all is_hex_digit secret_matches is_urlsafe find token_matches is_live
    new_token token_text codes
signs_in = refl
