-- ===== src/Users/Administrators.antt =====
-- A change of a role or of an activation leaves an active administrator.
use forge_x.Shared.{
  leb, ◌==◌, Bool-cases, Option-cases, length, exists, all, count, select, update_where,
  delete_where, exists_mono, exists-append_left, exists-update_where, exists-update_where_missed,
  exists-delete_where_missed, ℕ, String, ◌≡◌, refl, inl, inr, Bool, true, false, not, ◌&&◌, some,
  List, [], ◌∷◌, ◌++◌, arith,
}
use forge_x.Shared.Outcome.{ok, require-then}
use forge_x.Access.{Role, administrator, investigator, custodian, auditor, role_eq}
use forge_x.Store.{UserRow, UserRole, Store, Request}
use forge_x.Store.Roles.{has_role_row, user_by_id}
use forge_x.Store.Audit.{record_audit}
use forge_x.Users.{
  own_account, already_has_role, has_not_the_role, needs_one_role, needs_one_administrator,
  not_self, is_active_admin, ids_of, active_admins, is_just, role_audit, is_row, insert_role,
  add_role, is_administrator, revoke_role, set_status, set_active,
}

unfoldable pub has_administrator : Store → Bool
has_administrator s = exists (is_active_admin s.user_roles) s.users

some_listed :
    (p : UserRow → Bool) (us : List UserRow)
    → exists p us ≡ true
    → leb 1 (length (ids_of (select p us))) ≡ true
unfolding exists select ids_of
some_listed p [] h = h
some_listed p (u ∷ us) h = ground (arith, some_listed p us)

other_listed :
    (p : UserRow → Bool) (target : ℕ) (us : List UserRow)
    → all (λ i. i == target) (ids_of (select p us)) ≡ false
    → exists (λ u. p u && not (u.user_id == target)) us ≡ true
unfolding exists select ids_of all
other_listed p target [] h = absurd (ground arith)
other_listed p target (u ∷ us) h = ground (arith, other_listed p target us)

-- An active administrator besides `target`
another_administrator :
    (s : Store) (target : ℕ)
    → has_administrator s ≡ true
    → is_just (active_admins s) target ≡ false
    → exists (λ u. is_active_admin s.user_roles u && not (u.user_id == target)) s.users ≡ true
unfolding has_administrator is_just active_admins
another_administrator s target v h =
    other_listed (is_active_admin s.user_roles) target s.users
      (ground (arith, some_listed (is_active_admin s.user_roles) s.users v))

-- What the triggers' audit leaves alone
role_audit-users :
    (q : Request) (admin : ℕ) (action verb : String) (target : ℕ) (role : Role) (s : Store)
    → has_administrator (role_audit q admin action verb target role s) ≡ has_administrator s
unfolding role_audit record_audit has_administrator
role_audit-users q admin action verb target role s = elim (Option-cases (user_by_id s target)) [
  | inl e ↦ rw e refl
  | inr u ↦ rw (u.1) refl
]

-- A further role takes no administrator away.
more_roles :
    (s : Store) (row : UserRole)
    → has_administrator s ≡ true
    → has_administrator (record s { user_roles = s.user_roles ++ row ∷ [] }) ≡ true
unfolding has_administrator
more_roles s row v =
    exists_mono (is_active_admin s.user_roles) (is_active_admin (s.user_roles ++ row ∷ [])) s.users
      (λ u h. ground (
        arith,
        exists-append_left (λ r. r.user_id == u.user_id && role_eq r.role administrator)
            s.user_roles (row ∷ []),
      ))
      v

insert_role-keeps :
    (q : Request) (target : ℕ) (role : Role) (admin : ℕ) (s s' : Store)
    → insert_role q target role admin s ≡ ok s'
    → has_administrator s ≡ true
    → has_administrator s' ≡ true
unfolding insert_role
insert_role-keeps q target role admin s s' h v =
    let t = require-then (not (exists (is_row target role) s.user_roles)) already_has_role _ h in
    let row : UserRole = record { user_id = target; role = role; assigned_by = some admin } in
    let s1 : Store = record s { user_roles = s.user_roles ++ row ∷ [] } in
    let same : role_audit q admin "role.assign" "Granted role: " target role s1 ≡ s' =
      ground (arith, t.1) in
    rw (← same, role_audit-users q admin "role.assign" "Granted role: " target role s1)
      (more_roles s row v)

not_both :
    (role other : Role) (a b : Bool)
    → is_administrator role ≡ false
    → (a && role_eq other role) ≡ true
    → (b && role_eq other administrator) ≡ false
unfolding role_eq
not_both administrator other a b e w = absurd (ground arith)
not_both role investigator a b e w = ground arith
not_both role custodian a b e w = ground arith
not_both role auditor a b e w = ground arith
not_both investigator administrator a b e w = absurd (ground arith)
not_both custodian administrator a b e w = absurd (ground arith)
not_both auditor administrator a b e w = absurd (ground arith)

module _ (q : Request) (target : ℕ) (admin : ℕ) (s s' : Store) where
  pub add_role-keeps :
      (role : Role)
      → add_role q target role admin s ≡ ok s'
      → has_administrator s ≡ true
      → has_administrator s' ≡ true
  unfolding add_role not_self
  add_role-keeps role h v =
      let t = require-then (not (target == admin)) own_account _ h in
      let u = require-then (not (has_role_row s target role)) already_has_role _ t.1 in
      insert_role-keeps q target role admin s s' u.1 v

  -- Only the last administrator's own role may take the last administrator away.
  fewer_roles :
      (role : Role)
      → (is_administrator role && is_just (active_admins s) target) ≡ false
      → has_administrator s ≡ true
      → has_administrator (record s { user_roles = delete_where (is_row target role) s.user_roles })
        ≡ true
  unfolding has_administrator
  fewer_roles role k v = elim (Bool-cases (is_administrator role)) [
    | inl e ↦
        exists_mono _ (is_active_admin (delete_where (is_row target role) s.user_roles)) s.users
          (λ u h. ground (
            arith,
            exists-delete_where_missed (λ r. r.user_id == u.user_id && role_eq r.role administrator)
                (is_row target role) s.user_roles (λ r w. ground arith),
          ))
          (another_administrator s target v (ground (arith, e)))
    | inr e ↦
        exists_mono (is_active_admin s.user_roles)
          (is_active_admin (delete_where (is_row target role) s.user_roles)) s.users
          (λ u h. ground (
            arith,
            exists-delete_where_missed (λ r. r.user_id == u.user_id && role_eq r.role administrator)
                (is_row target role) s.user_roles
                (λ r w. not_both role r.role (r.user_id == target) (r.user_id == u.user_id) e w),
          ))
          v
  ]

  pub revoke_role-keeps :
      (role : Role)
      → revoke_role q target role admin s ≡ ok s'
      → has_administrator s ≡ true
      → has_administrator s' ≡ true
  unfolding revoke_role not_self
  revoke_role-keeps role h v =
      let t = require-then (not (target == admin)) own_account _ h in
      let u = require-then (has_role_row s target role) has_not_the_role _ t.1 in
      let w =
        require-then (not (count (λ r. r.user_id == target) s.user_roles == 1)) needs_one_role _
          u.1 in
      let x =
        require-then (not (is_administrator role && is_just (active_admins s) target))
          needs_one_administrator _ w.1 in
      let s1 : Store = record s { user_roles = delete_where (is_row target role) s.user_roles } in
      let same : role_audit q admin "role.revoke" "Revoked role: " target role s1 ≡ s' =
        ground (arith, x.1) in
      rw (← same, role_audit-users q admin "role.revoke" "Revoked role: " target role s1)
        (fewer_roles role (ground (arith, x.0)) v)

  set_active-users :
      (active : Bool)
      → set_active q target active admin s ≡ ok s'
      → (s'.users ≡ update_where (λ u. u.user_id == target) (set_status active) s.users)
        × (s'.user_roles ≡ s.user_roles)
        × ((not active && is_just (active_admins s) target) ≡ false)
  unfolding set_active not_self record_audit
  set_active-users active h = elim (Option-cases (user_by_id s target)) [
    | inl e ↦ absurd (ground (arith, e))
    | inr u ↦ (ground (arith, u.1), ground (arith, u.1), ground (arith, u.1))
  ]

  pub set_active-keeps :
      (active : Bool)
      → set_active q target active admin s ≡ ok s'
      → has_administrator s ≡ true
      → has_administrator s' ≡ true
  unfolding has_administrator set_status
  set_active-keeps active h v =
      let e = set_active-users active h in
      rw (e.0, e.1)
        (elim (Bool-cases active) [
          | inl on ↦
              exists-update_where (is_active_admin s.user_roles) (λ u. u.user_id == target)
                (set_status active) s.users (λ u k w. ground arith) v
          | inr off ↦
              exists-update_where_missed (is_active_admin s.user_roles) (λ u. u.user_id == target)
                (set_status active) s.users (another_administrator s target v (ground (arith, e.2)))
        ])
