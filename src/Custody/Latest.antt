-- ===== src/Custody/Latest.antt =====
-- The latest entry of an item after an entry is appended.
use forge_x.Shared.{
  ◌==◌, if◌then◌else◌, Bool-cases, ℕ, ◌≤◌, ◌<◌, ◌≡◌, refl, ◌∙◌, inl, inr, false, Option, none, some,
  List, [], ◌∷◌, ◌++◌, arith,
}
use forge_x.Shared.Tables.{All}
use forge_x.Store.{CustodyEntry, Store, Request}
use forge_x.Custody.Procedures.{newer, newest, latest_entry, is_entry}
use forge_x.Custody.Changes.{later, latest_entry_time, before}

-- The later of an entry and the one appended behind it
abbrev then_entry : Option CustodyEntry → CustodyEntry → Option CustodyEntry
then_entry none e = some e
then_entry (some y) e = if newer y e then some y else some e

newest-then :
    (x : CustodyEntry) (l : Option CustodyEntry) (e : CustodyEntry)
    → newest x (then_entry l e) ≡ then_entry (newest x l) e
newest-then x none e = ground arith
newest-then x (some y) e = ground arith

pub latest_entry-append :
    (eid : ℕ) (xs : List CustodyEntry) (e : CustodyEntry)
    → latest_entry eid (xs ++ e ∷ [])
      ≡ (if e.evidence_id == eid then then_entry (latest_entry eid xs) e else latest_entry eid xs)
unfolding latest_entry
latest_entry-append eid [] e = ground arith
latest_entry-append eid (x ∷ xs) e =
    ground (arith, latest_entry-append eid xs e, newest-then x (latest_entry eid xs) e)

-- The new entry is at least as recent as those of the item, and has a greater id.
abbrev pub IsLast : CustodyEntry → List CustodyEntry → Type 0
IsLast e = All λ x. (x.custody_id < e.custody_id) × (x.occurred_at ≤ e.occurred_at)

abbrev pub IsFresh : CustodyEntry → List CustodyEntry → Type 0
IsFresh e = All λ x. x.custody_id < e.custody_id

abbrev pub OlderThan : CustodyEntry → Option CustodyEntry → Type 0
OlderThan e none = Unit
OlderThan e (some y) = (y.custody_id < e.custody_id) × (y.occurred_at ≤ e.occurred_at)

abbrev LowerThan : CustodyEntry → Option CustodyEntry → Type 0
LowerThan e none = Unit
LowerThan e (some y) = y.custody_id < e.custody_id

newest-OlderThan :
    (x : CustodyEntry) (l : Option CustodyEntry) (e : CustodyEntry)
    → (x.custody_id < e.custody_id) × (x.occurred_at ≤ e.occurred_at)
    → OlderThan e l
    → OlderThan e (newest x l)
newest-OlderThan x none e h o = h
newest-OlderThan x (some y) e h o = elim (Bool-cases (newer x y)) [
  | inl n ↦ rw n h
  | inr n ↦ rw n o
]

newest-LowerThan :
    (x : CustodyEntry) (l : Option CustodyEntry) (e : CustodyEntry)
    → x.custody_id < e.custody_id
    → LowerThan e l
    → LowerThan e (newest x l)
newest-LowerThan x none e h o = h
newest-LowerThan x (some y) e h o = elim (Bool-cases (newer x y)) [
  | inl n ↦ rw n h
  | inr n ↦ rw n o
]

pub latest_entry-OlderThan :
    (eid : ℕ) (xs : List CustodyEntry) (e : CustodyEntry)
    → IsLast e xs
    → OlderThan e (latest_entry eid xs)
unfolding latest_entry
latest_entry-OlderThan eid [] e h = tt
latest_entry-OlderThan eid (x ∷ xs) e h =
    let rest = latest_entry-OlderThan eid xs e h.1 in
    elim (Bool-cases (x.evidence_id == eid)) [
      | inl n ↦ rw (n, latest_entry) (newest-OlderThan x (latest_entry eid xs) e h.0 rest)
      | inr n ↦ rw (n, latest_entry) rest
    ]

pub latest_entry-LowerThan :
    (eid : ℕ) (xs : List CustodyEntry) (e : CustodyEntry)
    → IsFresh e xs
    → LowerThan e (latest_entry eid xs)
unfolding latest_entry
latest_entry-LowerThan eid [] e h = tt
latest_entry-LowerThan eid (x ∷ xs) e h =
    let rest = latest_entry-LowerThan eid xs e h.1 in
    elim (Bool-cases (x.evidence_id == eid)) [
      | inl n ↦ rw (n, latest_entry) (newest-LowerThan x (latest_entry eid xs) e h.0 rest)
      | inr n ↦ rw (n, latest_entry) rest
    ]

then_entry-last :
    (l : Option CustodyEntry) (e : CustodyEntry) → OlderThan e l → then_entry l e ≡ some e
then_entry-last none e h = refl
then_entry-last (some y) e h = ground arith

then_entry-fresh :
    (l : Option CustodyEntry) (e : CustodyEntry)
    → LowerThan e l
    → then_entry l e ≡ (if is_entry (then_entry l e) e.custody_id then some e else l)
then_entry-fresh none e h = ground arith
then_entry-fresh (some y) e h = ground arith

-- An entry no older than the item's latest becomes its latest.
pub latest_entry-append_last :
    (xs : List CustodyEntry) (e : CustodyEntry)
    → OlderThan e (latest_entry e.evidence_id xs)
    → latest_entry e.evidence_id (xs ++ e ∷ []) ≡ some e
latest_entry-append_last xs e h =
    latest_entry-append e.evidence_id xs e
    ∙ ground (arith, then_entry-last (latest_entry e.evidence_id xs) e h)

-- A new entry of the item, whatever its time, either becomes the latest or leaves the latest as it
-- was, and its id tells which.
pub latest_entry-append_fresh :
    (xs : List CustodyEntry) (e : CustodyEntry)
    → IsFresh e xs
    → latest_entry e.evidence_id (xs ++ e ∷ []) ≡ (
        if is_entry (latest_entry e.evidence_id (xs ++ e ∷ [])) e.custody_id
        then some e
        else latest_entry e.evidence_id xs)
latest_entry-append_fresh xs e h = ground (
  arith,
  latest_entry-append e.evidence_id xs e,
  then_entry-fresh (latest_entry e.evidence_id xs) e (latest_entry-LowerThan e.evidence_id xs e h),
)

abbrev time_of : Option CustodyEntry → Option ℕ
time_of none = none
time_of (some e) = some e.occurred_at

newest-time :
    (x : CustodyEntry) (l : Option CustodyEntry)
    → time_of (newest x l) ≡ later x.occurred_at (time_of l)
newest-time x none = refl
newest-time x (some y) = ground arith

-- The time of the latest entry is the latest time.
pub latest_entry-time :
    (eid : ℕ) (xs : List CustodyEntry) → time_of (latest_entry eid xs) ≡ latest_entry_time eid xs
unfolding latest_entry latest_entry_time
latest_entry-time eid [] = refl
latest_entry-time eid (x ∷ xs) =
    ground (arith, latest_entry-time eid xs, newest-time x (latest_entry eid xs))

-- The id and the time that MySQL gives a request: above every id, and not before any entry.
pub record IsNext (q : Request) (s : Store) : Type 0 where
  pub ids : All (λ x. x.custody_id < q.new_id) s.custody
  pub times : All (λ x. x.occurred_at ≤ q.now) s.custody

IsNext-IsLast :
    (e : CustodyEntry) (xs : List CustodyEntry)
    → All (λ x. x.custody_id < e.custody_id) xs
    → All (λ x. x.occurred_at ≤ e.occurred_at) xs
    → IsLast e xs
IsNext-IsLast e [] a b = tt
IsNext-IsLast e (x ∷ xs) a b = ((a.0, b.0), IsNext-IsLast e xs a.1 b.1)

-- An entry at the present time is no older than the item's latest.
pub now-OlderThan :
    (q : Request) (s : Store) (e : CustodyEntry)
    → IsNext q s
    → e.custody_id ≡ q.new_id
    → e.occurred_at ≡ q.now
    → OlderThan e (latest_entry e.evidence_id s.custody)
now-OlderThan q s e n i t =
    latest_entry-OlderThan e.evidence_id s.custody e
      (IsNext-IsLast e s.custody (rw i n.ids) (rw t n.times))

-- Nor is one at a time that the service has accepted.
pub accepted-OlderThan :
    (q : Request) (s : Store) (e : CustodyEntry)
    → IsNext q s
    → e.custody_id ≡ q.new_id
    → before e.occurred_at (latest_entry_time e.evidence_id s.custody) ≡ false
    → OlderThan e (latest_entry e.evidence_id s.custody)
accepted-OlderThan q s e n i t =
    both (latest_entry e.evidence_id s.custody)
      (latest_entry-LowerThan e.evidence_id s.custody e (rw i n.ids))
      (rw (latest_entry-time e.evidence_id s.custody) t)
  where
    both :
        (l : Option CustodyEntry)
        → LowerThan e l
        → before e.occurred_at (time_of l) ≡ false
        → OlderThan e l
    both none a b = tt
    both (some y) a b = ground arith
