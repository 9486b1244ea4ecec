-- ===== src/Database.antt =====
-- app/db.py: what MySQL's errors become, the transactions of a request's connection and the retry
-- after a deadlock. mysql-connector's own error numbers are a parameter.
pub mod Atomic
pub mod Messages
pub mod Retry
pub mod Probe
pub mod Tests
use forge_x.Shared.{
  leb, ◌==◌, if◌then◌else◌, is_some, length, take, drop, exists, ℕ, Bool, true, false, not, ◌&&◌,
  ◌||◌, Option, none, some, List, [], ◌∷◌,
}
use forge_x.Shared.Text.{Text, codes, text_eq}
use forge_x.Shared.Outcome.{Outcome, err, ok}

-- The class of an exception of mysql.connector
pub data ConnectorClass : Type 0 where
  interface_error pool_error other_error : ConnectorClass

pub record MysqlError : Type 0 where
  pub class : ConnectorClass
  pub errno : Option ℕ
  pub msg : Text

pub data ErrorClass : Type 0 where
  business_rule constraint_violation transient unavailable unclassified : ErrorClass

-- A DatabaseError of one of the classes
pub record TranslatedError : Type 0 where
  pub class : ErrorClass
  pub errno : Option ℕ
  pub detail : Text

-- ER_SIGNAL_EXCEPTION; then ER_DUP_ENTRY, ER_CHECK_CONSTRAINT, ER_ROW_IS_REFERENCED and
-- ER_NO_REFERENCED_ROW; then ER_LOCK_DEADLOCK and ER_LOCK_WAIT_TIMEOUT; then ER_TABLEACCESS_DENIED
abbrev pub er_signal_exception : ℕ
er_signal_exception = 1644

abbrev pub constraint_codes : List ℕ
constraint_codes = 1062 ∷ 3819 ∷ 1451 ∷ 1452 ∷ []

abbrev pub transient_codes : List ℕ
transient_codes = 1213 ∷ 1205 ∷ []

abbrev pub er_tableaccess_denied : ℕ
er_tableaccess_denied = 1142

-- `errno in (…)`
unfoldable pub is_one_of : Option ℕ → List ℕ → Bool
is_one_of none codes = false
is_one_of (some n) codes = exists (λ c. c == n) codes

abbrev is_connection_class : ConnectorClass → Bool
is_connection_class interface_error = true
is_connection_class pool_error = true
is_connection_class other_error = false

-- `translate_error`; `connection_codes` are the six of mysql.connector.errorcode.
unfoldable pub class_of_error : (connection_codes : List ℕ) → MysqlError → ErrorClass
unfolding is_one_of
class_of_error connection_codes e =
    if is_one_of e.errno (er_signal_exception ∷ [])
    then business_rule
    else (if is_one_of e.errno constraint_codes
        then constraint_violation
        else (if is_one_of e.errno transient_codes
            then transient
            else (if is_connection_class e.class || is_one_of e.errno connection_codes
                then unavailable
                else unclassified)))

unfoldable pub translate_error : (connection_codes : List ℕ) → MysqlError → TranslatedError
unfolding class_of_error
translate_error connection_codes e = record {
  class = class_of_error connection_codes e;
  errno = e.errno;
  detail = e.msg;
}

-- What a block of a transaction can raise
pub data Raised : Type 0 where
  mysql : MysqlError → Raised
  database : TranslatedError → Raised
  nested_transaction : Raised
  inside_transaction : Raised
  invalid_procedure : Raised
  other_exception : ℕ → Raised

-- A connection of the pool: what is committed, and what an open transaction has made of it
pub record Connection (S : Type 0) : Type 0 where
  pub committed : S
  pub working : Option S

unfoldable pub in_transaction : {S : Type 0} → Connection S → Bool
in_transaction c = is_some c.working

unfoldable pub start_transaction : {S : Type 0} → Connection S → Connection S
start_transaction c = record c { working = some c.committed }

unfoldable pub rollback : {S : Type 0} → Connection S → Connection S
rollback c = record c { working = none }

abbrev latest : {S : Type 0} → S → Option S → S
latest s none = s
latest s (some t) = t

unfoldable pub commit : {S : Type 0} → Connection S → Connection S
commit c = record { committed = latest c.committed c.working; working = none }

-- _PROC_NAME: `^sp_[a-z0-9_]+$`, where `$` also matches before a last line feed
unfoldable pub proc_rest : Bool → Text → Bool
proc_rest seen [] = seen
proc_rest seen (c ∷ t) =
    let rest = proc_rest true t in
    if (leb b'a' c && leb c b'z') || (leb b'0' c && leb c b'9') || c == b'_'
    then rest
    else seen && c == 10 && length t == 0

unfoldable pub is_procedure_name : Text → Bool
unfolding proc_rest
is_procedure_name name = text_eq (take 3 name) (codes "sp_") && proc_rest false (drop 3 name)

-- `except mysql.connector.Error` and `except BaseException`
unfoldable pub reraised : (connection_codes : List ℕ) → Raised → Raised
reraised connection_codes (mysql e) = database (translate_error connection_codes e)
reraised connection_codes other = other

module _ {S A : Type 0} (connection_codes : List ℕ) where
  -- The end of the block; `commit_error` is what COMMIT itself raises, if it does.
  unfoldable pub end_block :
      (commit_error : Option MysqlError)
      → Outcome Raised A × Connection S
      → Outcome Raised A × Connection S
  unfolding reraised commit rollback
  end_block commit_error (err e, c) = (err (reraised connection_codes e), rollback c)
  end_block none (ok a, c) = (ok a, commit c)
  end_block (some e) (ok a, c) = (err (reraised connection_codes (mysql e)), rollback c)

  -- `with transaction() as cur:` around a block
  unfoldable pub transaction :
      (commit_error : Option MysqlError)
      → (Connection S → Outcome Raised A × Connection S)
      → Connection S
      → Outcome Raised A × Connection S
  unfolding end_block in_transaction start_transaction
  transaction commit_error block c =
      if in_transaction c
      then (err nested_transaction, c)
      else end_block commit_error (block (start_transaction c))

  -- `call_proc`; a procedure commits or rolls back by itself.
  unfoldable pub call_proc :
      (name : Text)
      → (S → Outcome MysqlError A × S)
      → Connection S
      → Outcome Raised A × Connection S
  unfolding in_transaction
  call_proc name procedure c =
      let done = procedure c.committed in
      if not (is_procedure_name name)
      then (err invalid_procedure, c)
      else (if in_transaction c then (err inside_transaction, c) else (
        elim done.0 [ err e ↦ err (database (translate_error connection_codes e)) | ok a ↦ ok a ],
        record c { committed = done.1 },
      ))

-- `close_db`: what returns to the pool
unfoldable pub close_db : {S : Type 0} → Connection S → Connection S
unfolding rollback in_transaction
close_db c = if in_transaction c then rollback c else c
