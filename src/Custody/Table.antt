-- ===== src/Custody/Table.antt =====
-- The Python table of custody actions against the procedure's.
use forge_x.Shared.{
  Bool-cases, exists, select, ◌≡◌, refl, sym, ◌∙◌, inl, inr, Bool, true, false, ◌&&◌, none, some,
  [], arith,
}
use forge_x.Access.{
  Role, administrator, investigator, custodian, Actor, holds, holds_any, custody_staff,
}
use forge_x.Store.{
  ItemStatus, in_transit, in_storage, checked_out, under_examination, released_item, archived_item,
  Action, Evidence, Store,
}
use forge_x.Store.Roles.{is_active_user, has_role_row, fn_has_role, is_assigned}
use forge_x.Custody.{
  allowed_from, resulting_status, offers, allowed_actions, investigator_custody_actions,
  custody_actions_for,
}
use forge_x.Custody.Procedures.{sql_allowed, sql_new_status, investigator_may, Transfer, may_record}

-- The actions that the form offers for a status are exactly those that sp_transfer_evidence
-- allows from it, and lead to the same status there.
pub table_mirrors_procedure :
    (action : Action) (status : ItemStatus)
    → (offers (allowed_actions status none) action ≡ sql_allowed action status)
      × (resulting_status action status ≡ sql_new_status action status)
unfolding offers exists allowed_actions allowed_from sql_allowed resulting_status sql_new_status
table_mirrors_procedure action in_transit = ground arith
table_mirrors_procedure action in_storage = ground arith
table_mirrors_procedure action checked_out = ground arith
table_mirrors_procedure action under_examination = ground arith
table_mirrors_procedure action released_item = ground arith
table_mirrors_procedure action archived_item = ground arith

investigator_offers :
    (action : Action) (status : ItemStatus)
    → offers (allowed_actions status (some investigator_custody_actions)) action ≡ true
    → (investigator_may action ≡ true) × (sql_allowed action status ≡ true)
unfolding offers exists select allowed_actions allowed_from sql_allowed investigator_custody_actions
investigator_offers action in_transit h = ground arith
investigator_offers action in_storage h = ground arith
investigator_offers action checked_out h = ground arith
investigator_offers action under_examination h = ground arith
investigator_offers action released_item h = ground arith
investigator_offers action archived_item h = ground arith

nothing_offered :
    (action : Action) (status : ItemStatus)
    → offers (allowed_actions status (some [])) action ≡ false
unfolding offers exists select allowed_actions allowed_from
nothing_offered action in_transit = refl
nothing_offered action _ = refl

module _ (s : Store) (p : Transfer) (item : Evidence) (user : Actor) (assigned : Bool)
    (self : user.user_id ≡ p.recorded_by) (active : is_active_user s p.recorded_by ≡ true)
    (roles : (r : Role) → has_role_row s p.recorded_by r ≡ holds r user.roles)
    (seated : assigned ≡ is_assigned s p.recorded_by item.case_id) where
  -- An action that the form offers an active user, whose roles and assignment are those in the
  -- database, passes the procedure's checks of permission and of the item's status.
  pub offered_is_permitted :
      offers (allowed_actions item.current_status (custody_actions_for user assigned)) p.action
        ≡ true
      → (may_record s p item ≡ true) × (sql_allowed p.action item.current_status ≡ true)
  unfolding custody_actions_for may_record fn_has_role custody_staff holds_any
  offered_is_permitted h = elim (Bool-cases (custody_staff user)) [
    | inl staff ↦ (
      ground (arith, roles administrator, roles custodian),
      sym (table_mirrors_procedure p.action item.current_status).0 ∙ (rw staff at h),
    )
    | inr other ↦ elim (Bool-cases (holds investigator user.roles && assigned)) [
      | inl mine ↦
          let o = investigator_offers p.action item.current_status (rw (other, mine) at h) in
          (ground (arith, o.0), o.1)
      | inr idle ↦
          absurd
            (ground (arith, rw (other, idle) at h, nothing_offered p.action item.current_status))
    ]
  ]
