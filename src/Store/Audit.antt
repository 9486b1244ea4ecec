-- ===== src/Store/Audit.antt =====
-- app/audit.py: one row of audit_logs for an action, cut to the widths of its columns.
use forge_x.Shared.{take, ℕ, String, Option, none, some, List, [], ◌∷◌, ◌++◌}
use forge_x.Shared.Text.{Text, codes, or_null, or_null?, Piece, render}
use forge_x.Store.{AuditOutcome, success, AuditRow, Store, Request}

abbrev cut_to : ℕ → Option Text → Option Text
cut_to n none = none
cut_to n (some t) = some (take n t)

-- What `record` is called with; `user_id` is the argument, or the signed-in user's id.
pub record AuditCall : Type 0 where
  pub user_id : Option ℕ
  pub action : String
  pub entity_type : String
  pub entity_ref : Option Text
  pub outcome : AuditOutcome
  pub details : Option (List Piece)

abbrev rendered : Option (List Piece) → Option Text
rendered none = none
rendered (some ps) = or_null (render ps)

unfoldable pub audit_row : Request → AuditCall → AuditRow
audit_row q c = record {
  user_id = c.user_id;
  action = take 50 (codes c.action);
  entity_type = c.entity_type;
  entity_ref = cut_to 40 (or_null? c.entity_ref);
  outcome = c.outcome;
  details = cut_to 500 (rendered c.details);
  ip_address = q.ip;
}

-- INSERT INTO audit_logs
unfoldable pub record_audit : Request → AuditCall → Store → Store
unfolding audit_row
record_audit q c s = record s { audit = s.audit ++ audit_row q c ∷ [] }

-- audit.record(action, entity, reference, cursor=cur, details=…) by the user `uid`, outcome Success
abbrev pub done : ℕ → String → String → Text → List Piece → AuditCall
done uid action entity ref details = record {
  user_id = some uid;
  action = action;
  entity_type = entity;
  entity_ref = some ref;
  outcome = success;
  details = some details;
}
