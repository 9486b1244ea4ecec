-- ===== src/Database/Probe.antt =====
-- `triggers_active` of app/db.py: a verification is inserted and read inside a transaction that is
-- always rolled back.
use mathlib.Core.Option
use forge_x.Shared.{
  if◌then◌else◌, Option-cases, find, ℕ, zero, min, ◌≡◌, ap, inl, inr, Bool, true, false, not,
  Option, none, some, List, [], ◌∷◌, ◌++◌, arith,
}
use forge_x.Shared.Text.{codes, text_eq_iff}
use forge_x.Shared.Tables.{find_fits, Distinct, find-Distinct}
use forge_x.Shared.Outcome.{Outcome, err, ok, is_ok}
use forge_x.Store.{
  manual_entry, HashResult, verified, failed, UserRow, HashRow, Verification, Store,
}
use forge_x.Integrity.{IntegrityError, superseded, set_result}
use forge_x.Database.{
  other_error, er_signal_exception, Raised, mysql, other_exception, Connection, in_transaction,
  start_transaction, reraised, end_block, transaction,
}
use forge_x.Database.Atomic.{StaysInside, transaction-Settled, Settled-failed}

-- `raise _ProbeRollback()`
abbrev pub probe_rollback : Raised
probe_rollback = other_exception 0

unfoldable pub least : ℕ → List UserRow → ℕ
least n [] = n
least n (u ∷ us) = least (min n u.user_id) us

-- MIN(user_id)
unfoldable pub first_user : List UserRow → ℕ
unfolding least
first_user [] = 0
first_user (u ∷ us) = least u.user_id us

-- `WHERE NOT EXISTS (…) ORDER BY h.hash_id LIMIT 1`, of rows in the order of their ids
unfoldable pub probed_hash : List HashRow → Option HashRow
probed_hash hs = find (λ h. not (superseded hs h.hash_id)) hs

unfoldable pub probe_row : (vid : ℕ) → Store → HashRow → Verification
unfolding first_user
probe_row vid s h = record {
  verification_id = vid;
  hash_id = h.hash_id;
  computed_hash = h.hash_value;
  result = failed;
  method = manual_entry;
  sample_file_name = none;
  sample_size_bytes = none;
  notes = some (codes "check-db trigger probe (rolled back)");
  verified_by = first_user s.users;
}

-- The insert, with what the trigger makes of the row: `triggers` tells whether it is installed.
unfoldable pub probe_insert :
    (triggers : Bool) → ℕ → Store → HashRow → Outcome IntegrityError Verification
unfolding probe_row
probe_insert triggers vid s h =
    if triggers then set_result s.hashes (probe_row vid s h) else ok (probe_row vid s h)

abbrev is_verified : HashResult → Bool
is_verified verified = true
is_verified failed = false

-- What the trigger raises
abbrev pub signalled : Raised
signalled = mysql (record { class = other_error; errno = some er_signal_exception; msg = [] })

-- The block: `outcome["result"] == "Verified"` if it is set, and how the block ends
unfoldable pub probe_block :
    (triggers : Bool)
    → ℕ
    → Connection Store
    → Option Bool × (Outcome Raised Unit × Connection Store)
unfolding probed_hash probe_insert
probe_block triggers vid c = elim c.working [
  | none ↦ (none, (err probe_rollback, c))
  | some s ↦ elim (probed_hash s.hashes) [
    | none ↦ (none, (err probe_rollback, c))
    | some h ↦ elim (probe_insert triggers vid s h) [
      | err e ↦ (none, (err signalled, c))
      | ok v ↦ (
        some (is_verified v.result),
        (
          err probe_rollback,
          record c { working = some (record s { verifications = s.verifications ++ v ∷ [] }) },
        ),
      )
    ]
  ]
]

-- `except _ProbeRollback: pass`; every other exception goes on.
unfoldable pub after_probe : Option Bool → Outcome Raised Unit → Outcome Raised (Option Bool)
after_probe outcome (err (other_exception zero)) = ok outcome
after_probe outcome (err e) = err e
after_probe outcome (ok done) = ok outcome

unfoldable pub triggers_active :
    (connection_codes : List ℕ) (triggers : Bool)
    → ℕ
    → Connection Store
    → Outcome Raised (Option Bool) × Connection Store
unfolding probe_block after_probe
triggers_active connection_codes triggers vid c =
    let ended = transaction connection_codes none (λ x. (probe_block triggers vid x).1) c in
    (after_probe (probe_block triggers vid (start_transaction c)).0 ended.0, ended.1)

probe_block-StaysInside :
    (triggers : Bool) (vid : ℕ) → StaysInside (λ x. (probe_block triggers vid x).1)
unfolding probe_block in_transaction
probe_block-StaysInside triggers vid c h = (ground (arith, h), ground (arith, h))

probe_block-raises :
    (triggers : Bool) (vid : ℕ) (c : Connection Store)
    → is_ok (probe_block triggers vid c).1.0 ≡ false
unfolding probe_block
probe_block-raises triggers vid c = ground arith

-- With a current hash, or with none, the block ends with its own exception.
probe_block-outcome :
    (triggers : Bool) (vid : ℕ) (c : Connection Store)
    → Distinct (λ h. h.hash_id) c.committed.hashes
    → ((probe_block triggers vid (start_transaction c)).0
        ≡ Option.map (λ h. triggers) (probed_hash c.committed.hashes))
      × ((probe_block triggers vid (start_transaction c)).1.0 ≡ err probe_rollback)
unfolding probe_block probe_insert set_result probed_hash probe_row start_transaction
probe_block-outcome triggers vid c distinct = elim (Option-cases (probed_hash c.committed.hashes)) [
  | inl e ↦ (ground (arith, e), ground (arith, e))
  | inr h ↦
      let same =
        find-Distinct (λ x. x.hash_id) (λ x. not (superseded c.committed.hashes x.hash_id))
          c.committed.hashes h.0 distinct h.1 in
      let current =
        find_fits (λ x. not (superseded c.committed.hashes x.hash_id)) c.committed.hashes h.1 in
      let equal = text_eq_iff h.0.hash_value h.0.hash_value in
      (ground (arith, h.1, same, current, equal), ground (arith, h.1, same, current, equal))
]

end_block-raised :
    (connection_codes : List ℕ) (r : Outcome Raised Unit × Connection Store)
    → r.0 ≡ err probe_rollback
    → (end_block connection_codes none r).0 ≡ err probe_rollback
unfolding end_block reraised
end_block-raised connection_codes (err e, c) h =
    let same : e ≡ probe_rollback = ground (arith, h) in ground (arith, same)
end_block-raised connection_codes (ok a, c) h = absurd (ground (arith, h))

transaction_ends :
    (connection_codes : List ℕ) (block : Connection Store → Outcome Raised Unit × Connection Store)
    (c : Connection Store)
    → in_transaction c ≡ false
    → (block (start_transaction c)).0 ≡ err probe_rollback
    → (transaction connection_codes none block c).0 ≡ err probe_rollback
unfolding transaction
transaction_ends connection_codes block c idle h =
    rw idle (end_block-raised connection_codes (block (start_transaction c)) h)

-- The probe leaves the database as it was and no transaction open. Where hash ids are distinct, it
-- raises nothing, and if some hash is current, it says whether the trigger is installed; without a
-- hash it says nothing.
pub triggers_active-probes :
    (connection_codes : List ℕ) (triggers : Bool) (vid : ℕ) (c : Connection Store)
    → in_transaction c ≡ false
    → Distinct (λ h. h.hash_id) c.committed.hashes
    → ((triggers_active connection_codes triggers vid c).1.committed ≡ c.committed)
      × (in_transaction (triggers_active connection_codes triggers vid c).1 ≡ false)
      × ((triggers_active connection_codes triggers vid c).0
          ≡ ok (Option.map (λ h. triggers) (probed_hash c.committed.hashes)))
unfolding triggers_active after_probe
triggers_active-probes connection_codes triggers vid c idle distinct =
    let block = λ (x : Connection Store). (probe_block triggers vid x).1 in
    let settled =
      transaction-Settled connection_codes none block c idle
        (probe_block-StaysInside triggers vid) in
    let o = probe_block-outcome triggers vid c distinct in
    let ends = transaction_ends connection_codes block c idle o.1 in
    (
      Settled-failed c (block (start_transaction c)) (transaction connection_codes none block c)
          settled.0 (probe_block-raises triggers vid (start_transaction c)),
      settled.1,
      rw ends (ap (λ x. ok x) o.0),
    )
