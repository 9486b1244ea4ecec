-- ===== src/Database/Atomic.antt =====
-- A transaction commits all of its block or nothing, and leaves the connection without one.
use forge_x.Shared.{ℕ, ◌≡◌, refl, true, false, Option, none, some, List, arith}
use forge_x.Shared.Text.{Text}
use forge_x.Shared.Outcome.{Outcome, err, ok, is_ok}
use forge_x.Database.{
  MysqlError, Raised, nested_transaction, Connection, in_transaction, start_transaction, rollback,
  commit, end_block, transaction, call_proc, close_db,
}

-- A block that works inside the transaction: it neither commits nor ends it.
abbrev pub StaysInside : {S A : Type 0} → (Connection S → Outcome Raised A × Connection S) → Type 0
StaysInside {S} block =
    (c : Connection S)
    → in_transaction c ≡ true
    → (in_transaction (block c).1 ≡ true) × ((block c).1.committed ≡ c.committed)

-- How a transaction ends: with the block's work committed, or with the database as it was
abbrev pub Settled :
    {S A : Type 0}
    → Connection S
    → Outcome Raised A × Connection S
    → Outcome Raised A × Connection S
    → Type 0
Settled c (err e, inner) (err e', c') = c'.committed ≡ c.committed
Settled c (err e, inner) (ok a, c') = ⊥
Settled c (ok a, inner) (err e', c') = c'.committed ≡ c.committed
Settled c (ok a, inner) (ok a', c') = (a' ≡ a) × (some c'.committed ≡ inner.working)

module _ {S A : Type 0} (connection_codes : List ℕ) where
  end_block-Settled :
      (commit_error : Option MysqlError) (c : Connection S) (r : Outcome Raised A × Connection S)
      → in_transaction r.1 ≡ true
      → r.1.committed ≡ c.committed
      → Settled c r (end_block connection_codes commit_error r)
        × (in_transaction (end_block connection_codes commit_error r).1 ≡ false)
  unfolding end_block commit rollback in_transaction
  end_block-Settled none c (err e, inner) h k = (k, refl)
  end_block-Settled (some x) c (err e, inner) h k = (k, refl)
  end_block-Settled none c (ok a, inner) h k = ((refl, ground arith), refl)
  end_block-Settled (some x) c (ok a, inner) h k = (k, refl)

  -- From a connection without a transaction, a block that stays inside its own either has all its
  -- work committed, and then returns, or leaves the database as it was, and then raises; in both
  -- cases no transaction is left open.
  pub transaction-Settled :
      (commit_error : Option MysqlError) (block : Connection S → Outcome Raised A × Connection S)
      (c : Connection S)
      → in_transaction c ≡ false
      → StaysInside block
      → Settled c (block (start_transaction c)) (transaction connection_codes commit_error block c)
        × (in_transaction (transaction connection_codes commit_error block c).1 ≡ false)
  unfolding transaction start_transaction in_transaction
  transaction-Settled commit_error block c idle inside =
      let k = inside (start_transaction c) refl in
      rw idle (end_block-Settled commit_error c (block (start_transaction c)) k.0 k.1)

  -- Inside a transaction, another one and a procedure are refused, and nothing is committed.
  pub nested-refused :
      (commit_error : Option MysqlError) (block : Connection S → Outcome Raised A × Connection S)
      (name : Text) (procedure : S → Outcome MysqlError A × S) (c : Connection S)
      → in_transaction c ≡ true
      → (transaction connection_codes commit_error block c ≡ (err nested_transaction, c))
        × ((call_proc connection_codes name procedure c).1 ≡ c)
        × (is_ok (call_proc connection_codes name procedure c).0 ≡ false)
  unfolding transaction call_proc
  nested-refused commit_error block name procedure c h =
      (ground (arith, h), ground (arith, h), ground (arith, h))

-- A connection that returns to the pool has no open transaction, and what it has committed stays.
pub close_db-idle :
    {S : Type 0} (c : Connection S)
    → (in_transaction (close_db c) ≡ false) × ((close_db c).committed ≡ c.committed)
unfolding close_db rollback in_transaction
close_db-idle c = ground arith

-- A block that raises leaves the database as it was.
pub Settled-failed :
    {S A : Type 0} (c : Connection S) (r r' : Outcome Raised A × Connection S)
    → Settled c r r'
    → is_ok r.0 ≡ false
    → r'.1.committed ≡ c.committed
Settled-failed c (err e, inner) (err e', c') h k = h
Settled-failed c (err e, inner) (ok a, c') h k = absurd h
Settled-failed c (ok a, inner) r' h k = cc
