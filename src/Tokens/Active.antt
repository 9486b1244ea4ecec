-- ===== src/Tokens/Active.antt =====
-- How many tokens of a user are active, and whom a token signs in.
use forge_x.Shared.{
  ◌==◌, Bool-cases, Option-cases, find, count, ℕ, ◌≤◌, ◌<◌, ◌≡◌, sym, ap, ◌∙◌, inl, inr, Bool, true,
  ◌&&◌, Option, none, some, List, [], ◌∷◌, ◌++◌, arith,
}
use forge_x.Shared.Text.{Text, strip, text_eq_iff, or_empty}
use forge_x.Shared.Outcome.{ok}
use forge_x.Access.{Actor}
use forge_x.Store.{Request}
use forge_x.Integrity.Current.{count-append}
use forge_x.Tokens.{
  Token, Api, max_active, is_live, active_of, new_token, token_text, create_token, token_prefix_of,
  token_matches, token_owner,
}

-- No user has more than five active tokens now.
pub record WithinLimit (now : ℕ) (ts : List Token) : Type 0 where
  pub says : (uid : ℕ) → active_of now uid ts ≤ max_active

create_token-tokens :
    (repr sha256 : Text → Text) (q : Request) (user : Actor) (given : Option Text) (days : ℕ)
    (prefix secret : Text) (api api' : Api) (token : Text)
    → create_token repr sha256 q user given days prefix secret api ≡ ok (token, api')
    → (active_of q.now user.user_id api.tokens < max_active)
      × (api'.tokens
          ≡ api.tokens
            ++ new_token sha256 q user.user_id
                (strip (or_empty given))
                days
                prefix
                (token_text prefix secret)
              ∷ [])
unfolding create_token
create_token-tokens repr sha256 q user given days prefix secret api api' token h =
    (ground arith, ground arith)

-- An accepted new token keeps every user within the limit of five active tokens.
pub create_token-WithinLimit :
    (repr sha256 : Text → Text) (q : Request) (user : Actor) (given : Option Text) (days : ℕ)
    (prefix secret : Text) (api api' : Api) (token : Text)
    → create_token repr sha256 q user given days prefix secret api ≡ ok (token, api')
    → WithinLimit q.now api.tokens
    → WithinLimit q.now api'.tokens
unfolding active_of count new_token
create_token-WithinLimit repr sha256 q user given days prefix secret api api' token h v =
    let e = create_token-tokens repr sha256 q user given days prefix secret api api' token h in
    record {
      says = λ uid.
          let a =
            count-append (λ t. t.user_id == uid && is_live q.now t) api.tokens
              (new_token sha256 q user.user_id (strip (or_empty given)) days prefix
                  (token_text prefix secret)
                ∷ []) in
          let b = v.says uid in rw (e.1) (ground (arith, a, b, e.0));
    }

find-holds : (p : Token → Bool) (ts : List Token) (t : Token) → find p ts ≡ some t → p t ≡ true
unfolding find
find-holds p [] t h = cc
find-holds p (x ∷ xs) t h = elim (Bool-cases (p x)) [
  | inl e ↦ let same : x ≡ t = ground arith in ap p (sym same) ∙ e
  | inr e ↦ find-holds p xs t (ground arith)
]

-- A token signs in only the owner of a stored row that has its hash, is not revoked and has not
-- expired.
pub token_owner-Live :
    (sha256 : Text → Text) (q : Request) (raw : Text) (ts : List Token) (uid tid : ℕ)
    → token_owner sha256 q raw ts ≡ some (uid, tid)
    → (t : Token) × (t.user_id ≡ uid)
      × (t.token_id ≡ tid)
      × (t.token_hash ≡ sha256 raw)
      × (t.revoked_at ≡ none)
      × (q.now < t.expires_at)
unfolding token_owner token_matches is_live
token_owner-Live sha256 q raw ts uid tid h = elim (Option-cases (token_prefix_of raw)) [
  | inl e ↦ absurd (ground (arith, e))
  | inr p ↦ elim (Option-cases (find (token_matches sha256 q.now raw p.0) ts)) [
    | inl e ↦ absurd (ground (arith, p.1, e))
    | inr t ↦
        let k = find-holds (token_matches sha256 q.now raw p.0) ts t.0 t.1 in
        (
          t.0,
          ground (arith, p.1, t.1),
          ground (arith, p.1, t.1),
          (text_eq_iff t.0.token_hash (sha256 raw)).0 (ground arith),
          ground arith,
          ground arith,
        )
  ]
]
