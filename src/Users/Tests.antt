-- ===== src/Users/Tests.antt =====
-- Instances of the theorems about accounts: user 8 becomes an administrator and deactivates user 1.
use forge_x.Shared.{find, exists, all, select, ◌≡◌, refl, true, false}
use forge_x.Shared.Outcome.{Outcome, err, ok}
use forge_x.Access.{administrator, role_eq}
use forge_x.Store.{Store}
use forge_x.Store.Roles.{has_role_row, user_by_id}
use forge_x.Store.Audit.{record_audit}
use forge_x.Store.Sample.{sample, sample_request}
use forge_x.Users.{
  AdminError, not_self, ids_of, active_admins, is_just, role_audit, insert_role, add_role,
  status_changes, set_active,
}
use forge_x.Users.Administrators.{has_administrator}
use forge_x.Users.Accounts.{by_add, by_status, no_call, next_call, administrator_remains}

abbrev state_of : Outcome AdminError Store → Store
state_of (ok s) = s
state_of (err e) = sample

promoted : Store
promoted = state_of (add_role sample_request 8 administrator 1 sample)

promotes : add_role sample_request 8 administrator 1 sample ≡ ok promoted
unfolding promoted add_role not_self has_role_row exists role_eq insert_role
promotes = refl

handed_over : Store
handed_over = state_of (set_active sample_request 1 false 8 promoted)

hands_over : set_active sample_request 1 false 8 promoted ≡ ok handed_over
unfolding handed_over promoted add_role not_self has_role_row exists role_eq insert_role set_active
    active_admins ids_of select is_just all status_changes user_by_id find role_audit record_audit
hands_over = refl

administrator_remains_example : has_administrator handed_over ≡ true
unfolding has_administrator exists role_eq
administrator_remains_example =
    administrator_remains sample handed_over
      (next_call (next_call no_call (by_add sample_request 8 1 administrator promotes))
        (by_status sample_request 1 8 false hands_over))
      refl
