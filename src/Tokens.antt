-- ===== src/Tokens.antt =====
-- app/api/tokens.py: personal API tokens. SHA-256 is a parameter, and so are the random prefix and
-- secret of a new token. The tokens stand beside the store, whose audit they add to.
pub mod Active
pub mod Tests
use forge_x.Shared.{
  ltb, leb, ◌==◌, if◌then◌else◌, is_some, length, take, drop, find, all, count, update_where, ℕ,
  suc, ◌+◌, ◌*◌, Bool, true, not, ◌&&◌, ◌||◌, Option, none, some, List, [], ◌∷◌, ◌++◌,
}
use forge_x.Shared.Text.{Text, codes, strip, text_eq, or_empty, lit, num, val}
use forge_x.Shared.Outcome.{Outcome, ok, ◌>>=◌, ◌>>◌, require, or_raise}
use forge_x.Access.{administrator, Actor, holds}
use forge_x.Store.{Store, Request}
use forge_x.Store.Audit.{record_audit, done}

pub data TokenError : Type 0 where
  name_the_token choose_expiry too_many_tokens token_not_found already_revoked : TokenError

pub record Token : Type 0 where
  pub token_id : ℕ
  pub user_id : ℕ
  pub name : Text
  pub token_prefix : Text
  pub token_hash : Text
  pub created_at : ℕ
  pub expires_at : ℕ
  pub last_used_at : Option ℕ
  pub revoked_at : Option ℕ

pub record Api : Type 0 where
  pub store : Store
  pub tokens : List Token

-- MAX_ACTIVE_PER_USER
abbrev pub max_active : ℕ
max_active = 5

-- DAY_CHOICES
unfoldable pub is_day_choice : ℕ → Bool
is_day_choice days = days == 7 || days == 30 || days == 90

-- `revoked_at IS NULL AND expires_at > NOW()`
unfoldable pub is_live : ℕ → Token → Bool
is_live now t = not (is_some t.revoked_at) && ltb now t.expires_at

unfoldable pub active_of : ℕ → ℕ → List Token → ℕ
active_of now uid ts = count (λ t. t.user_id == uid && is_live now t) ts

unfoldable pub new_token : (sha256 : Text → Text) → Request → ℕ → Text → ℕ → Text → Text → Token
new_token sha256 q uid name days prefix token = record {
  token_id = q.new_id;
  user_id = uid;
  name = name;
  token_prefix = prefix;
  token_hash = sha256 token;
  created_at = q.now;
  expires_at = q.now + 86400 * days;
  last_used_at = none;
  revoked_at = none;
}

unfoldable pub token_text : Text → Text → Text
token_text prefix secret = codes "fx_" ++ (prefix ++ codes "_" ++ secret)

-- `create`; `prefix` and `secret` come from `secrets`, and `repr` is Python's. No other request of the
-- user comes between the count, which has no transaction of its own, and the insert.
unfoldable pub create_token :
    (repr sha256 : Text → Text)
    → Request
    → Actor
    → Option Text
    → ℕ
    → (prefix secret : Text) → Api
    → Outcome TokenError (Text × Api)
unfolding new_token
create_token repr sha256 q user given days prefix secret api = do
  let name = strip (or_empty given)
  require (leb 2 (length name) && leb (length name) 60) name_the_token
  require (is_day_choice days) choose_expiry
  require (ltb (active_of q.now user.user_id api.tokens) max_active) too_many_tokens
  let token = token_text prefix secret
  ok (
    token,
    record {
      tokens = api.tokens ++ new_token sha256 q user.user_id name days prefix token ∷ [];
      store =
          record_audit q
            (done user.user_id "api.token_create" "API token" (codes "fx_" ++ prefix)
              (val (repr name) ∷ lit ", expires in " ∷ num days ∷ lit " days" ∷ []))
            api.store;
    },
  )

unfoldable pub set_revoked : Request → Token → Token
set_revoked q t = record t { revoked_at = some q.now }

-- `revoke`
unfoldable pub revoke_token : Request → Actor → ℕ → Api → Outcome TokenError Api
revoke_token q user tid api = do
  row ← or_raise (find (λ t. t.token_id == tid) api.tokens) token_not_found
  require (row.user_id == user.user_id || holds administrator user.roles) token_not_found
  require (not (is_some row.revoked_at)) already_revoked
  ok record {
    tokens = update_where (λ t. t.token_id == tid) (set_revoked q) api.tokens;
    store =
        record_audit q
          (done user.user_id "api.token_revoke" "API token" (codes "fx_" ++ row.token_prefix) [])
          api.store;
  }

unfoldable pub is_urlsafe : ℕ → Bool
is_urlsafe c =
    (leb b'A' c && leb c b'Z')
    || (leb b'a' c && leb c b'z')
    || (leb b'0' c && leb c b'9')
    || c == 95
    || c == 45

unfoldable pub is_hex_digit : ℕ → Bool
is_hex_digit c = (leb b'0' c && leb c b'9') || (leb b'a' c && leb c b'f')

-- `[A-Za-z0-9_-]{40,64}$`; `$` also matches before a last line feed.
unfoldable pub secret_matches : ℕ → Text → Bool
unfolding is_urlsafe
secret_matches seen [] = leb 40 seen && leb seen 64
secret_matches seen (c ∷ []) =
    (is_urlsafe c && leb 39 seen && leb seen 63) || (c == 10 && leb 40 seen && leb seen 64)
secret_matches seen (c ∷ d ∷ t) = is_urlsafe c && secret_matches (suc seen) (d ∷ t)

-- TOKEN_RE.match: the prefix that group 1 holds
unfoldable pub token_prefix_of : Text → Option Text
unfolding is_hex_digit secret_matches
token_prefix_of raw =
    if text_eq (take 3 raw) (codes "fx_")
      && length (take 8 (drop 3 raw)) == 8
      && all is_hex_digit (take 8 (drop 3 raw))
      && text_eq (take 1 (drop 11 raw)) (codes "_")
      && secret_matches 0 (drop 12 raw)
    then some (take 8 (drop 3 raw))
    else none

unfoldable pub token_matches : (sha256 : Text → Text) → ℕ → Text → Text → Token → Bool
token_matches sha256 now raw prefix t =
    text_eq t.token_hash (sha256 raw) && text_eq t.token_prefix prefix && is_live now t

abbrev owner_of : Option Token → Option (ℕ × ℕ)
owner_of none = none
owner_of (some t) = some (t.user_id, t.token_id)

abbrev lookup_token : (sha256 : Text → Text) → ℕ → Text → List Token → Option Text → Option (ℕ × ℕ)
lookup_token sha256 now raw ts none = none
lookup_token sha256 now raw ts (some prefix) =
    owner_of (find (token_matches sha256 now raw prefix) ts)

-- `authenticate`: the user and the token, or None
unfoldable pub token_owner : (sha256 : Text → Text) → Request → Text → List Token → Option (ℕ × ℕ)
unfolding token_prefix_of
token_owner sha256 q raw ts = lookup_token sha256 q.now raw ts (token_prefix_of raw)

unfoldable pub mark_used : Request → ℕ → List Token → List Token
mark_used q tid ts =
    update_where
      (λ t. t.token_id == tid && elim t.last_used_at [ none ↦ true | some u ↦ ltb (u + 60) q.now ])
      (λ t. record t { last_used_at = some q.now }) ts
