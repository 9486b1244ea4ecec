-- ===== src/Users/Accounts.antt =====
-- FORGE-X always has an active administrator, whatever administrators do to accounts and roles, and
-- nobody changes an account of their own.
use forge_x.Shared.{==_refl, ℕ, ◌≡◌, refl, Bool, true}
use forge_x.Shared.Text.{Text}
use forge_x.Shared.Outcome.{err, ok}
use forge_x.Access.{Role}
use forge_x.Store.{Store, Request}
use forge_x.Users.{own_account, not_self, add_role, revoke_role, set_active, reset_password}
use forge_x.Users.Administrators.{
  has_administrator, add_role-keeps, revoke_role-keeps, set_active-keeps,
}

-- What administrators do to accounts and roles
pub data AccountStep (s s' : Store) : Type 0 where
  by_add :
      (q : Request) (target admin : ℕ) (role : Role)
      → add_role q target role admin s ≡ ok s'
      → AccountStep s s'
  by_revoke :
      (q : Request) (target admin : ℕ) (role : Role)
      → revoke_role q target role admin s ≡ ok s'
      → AccountStep s s'
  by_status :
      (q : Request) (target admin : ℕ) (active : Bool)
      → set_active q target active admin s ≡ ok s'
      → AccountStep s s'

pub data AccountRun (s : Store) : Store → Type 0 where
  no_call : AccountRun s s
  next_call : {s1 s2 : Store} → AccountRun s s1 → AccountStep s1 s2 → AccountRun s s2

step_keeps :
    (s s' : Store) → AccountStep s s' → has_administrator s ≡ true → has_administrator s' ≡ true
step_keeps s s' (by_add q target admin role h) v = add_role-keeps q target admin s s' role h v
step_keeps s s' (by_revoke q target admin role h) v = revoke_role-keeps q target admin s s' role h v
step_keeps s s' (by_status q target admin active h) v =
    set_active-keeps q target admin s s' active h v

-- Over any accepted changes of roles and activations an active administrator remains.
pub administrator_remains :
    (s s' : Store) → AccountRun s s' → has_administrator s ≡ true → has_administrator s' ≡ true
administrator_remains s _ no_call v = v
administrator_remains s s' (next_call {s1} r t) v =
    step_keeps s1 s' t (administrator_remains s s1 r v)

-- Nobody changes an account of their own: each of these calls with the acting administrator as its
-- target fails, whatever the store holds.
pub own_account_refused :
    (q : Request) (admin : ℕ) (role : Role) (active : Bool) (hash : Text → Text)
    (acceptable : Text → Text → Bool) (password : Text) (s : Store)
    → (add_role q admin role admin s ≡ err own_account)
      × (revoke_role q admin role admin s ≡ err own_account)
      × (set_active q admin active admin s ≡ err own_account)
      × (reset_password hash acceptable q admin password admin s ≡ err own_account)
unfolding add_role revoke_role set_active reset_password not_self
own_account_refused q admin role active hash acceptable password s =
    let self = ==_refl admin in (rw self refl, rw self refl, rw self refl, rw self refl)
