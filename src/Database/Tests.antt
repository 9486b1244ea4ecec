-- ===== src/Database/Tests.antt =====
-- Instances of the theorems about transactions, retries and messages.
use mathlib.Core.Option
use forge_x.Shared.{
  ◌==◌, if◌then◌else◌, ℕ, suc, ◌+◌, ◌<◌, ◌≡◌, refl, true, false, none, some, [], ◌∷◌, arith,
}
use forge_x.Shared.Tables.{Distinct}
use forge_x.Shared.Outcome.{Outcome, err, ok}
use forge_x.Store.{computed, HashRow, Store}
use forge_x.Store.Sample.{sample}
use forge_x.Database.{
  transient, Raised, database, Connection, in_transaction, start_transaction, transaction,
}
use forge_x.Database.Atomic.{StaysInside, Settled, transaction-Settled}
use forge_x.Database.Retry.{is_transient, retry_on_transient, retry_on_transient-returns}
use forge_x.Database.Probe.{probed_hash, triggers_active, triggers_active-probes}

abbrev deadlock : Raised
deadlock = database record { class = transient; errno = some 1213; detail = [] }

-- A function that meets a deadlock in its first run
unfoldable counts_up : ℕ → ℕ → Outcome Raised ℕ × ℕ
counts_up attempt s = if attempt == 1 then (err deadlock, s) else (ok attempt, suc s)

first_run : (i : ℕ) → i < 1 → counts_up (1 + i) 5 ≡ (err deadlock, 5)
unfolding counts_up
first_run i h = ground arith

deadlock_transient : (i : ℕ) → i < 1 → is_transient deadlock ≡ true
unfolding is_transient
deadlock_transient i h = refl

second_run : counts_up 2 5 ≡ (ok 2, 6)
unfolding counts_up
second_run = refl

retry_on_transient-returns_example : retry_on_transient counts_up 2 5 ≡ (ok (some 2), 6)
retry_on_transient-returns_example =
    retry_on_transient-returns counts_up 2 1 5 6 2 (λ i. deadlock) (omega arith) first_run
      deadlock_transient second_run

abbrev idle : Connection ℕ
idle = record { committed = 4; working = none }

-- A block that adds one to what it finds
adds_one : Connection ℕ → Outcome Raised Unit × Connection ℕ
adds_one c = (ok tt, record c { working = Option.map suc c.working })

adds_one-StaysInside : StaysInside adds_one
unfolding adds_one in_transaction
adds_one-StaysInside c h = (ground arith, refl)

idle-closed : in_transaction idle ≡ false
unfolding in_transaction
idle-closed = refl

transaction-Settled_example :
    Settled idle (adds_one (start_transaction idle)) (transaction [] none adds_one idle)
    × (in_transaction (transaction [] none adds_one idle).1 ≡ false)
transaction-Settled_example =
    transaction-Settled [] none adds_one idle idle-closed adds_one-StaysInside

abbrev one_hash : HashRow
one_hash = record {
  hash_id = 1;
  evidence_id = 5;
  hash_value = 97 ∷ [];
  source = computed;
  source_notes = none;
  recorded_by = 7;
  supersedes_hash_id = none;
  correction_reason = none;
}

abbrev database_now : Connection Store
database_now = record { committed = record sample { hashes = one_hash ∷ [] }; working = none }

one_hash-Distinct : Distinct (λ h. h.hash_id) (one_hash ∷ [])
unfolding Distinct
one_hash-Distinct = (tt, tt)

quiet : in_transaction database_now ≡ false
unfolding in_transaction
quiet = refl

triggers_active-probes_example :
    ((triggers_active [] true 1 database_now).1.committed ≡ database_now.committed)
    × (in_transaction (triggers_active [] true 1 database_now).1 ≡ false)
    × ((triggers_active [] true 1 database_now).0
        ≡ ok (Option.map (λ h. true) (probed_hash database_now.committed.hashes)))
triggers_active-probes_example =
    triggers_active-probes [] true 1 database_now quiet one_hash-Distinct
