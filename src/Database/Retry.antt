-- ===== src/Database/Retry.antt =====
-- `retry_on_transient` of app/db.py: the function runs again after a deadlock, a bounded number of
-- times. The function takes the number of its run, since other sessions may behave otherwise then.
use forge_x.Shared.{
  ◌==◌, if◌then◌else◌, ℕ, zero, suc, ◌+◌, ◌<◌, ◌≡◌, refl, sym, ap, ◌∙◌, Bool, true, false, not,
  ◌&&◌, Option, none, some, arith,
}
use forge_x.Shared.Outcome.{Outcome, err, ok}
use forge_x.Database.{transient, Raised, database}

unfoldable pub is_transient : Raised → Bool
is_transient (database e) = elim e.class [ transient ↦ true | _ ↦ false ]
is_transient other = false

shift : (m i : ℕ) → suc m + i ≡ m + suc i
shift m i = omega arith

module _ {S A : Type 0} (func : ℕ → S → Outcome Raised A × S) where
  -- What follows a run: its result, its error, or the next run if there is one and the error is
  -- transient
  unfoldable pub after_run :
      (last : Bool)
      → (S → Outcome Raised (Option A) × S)
      → Outcome Raised A × S
      → Outcome Raised (Option A) × S
  unfolding is_transient
  after_run last next (ok a, s) = (ok (some a), s)
  after_run last next (err e, s) =
      let again = next s in if is_transient e && not last then again else (err e, s)

  -- `for attempt in range(1, attempts + 1)`, with the runs that are left and the number of the next
  unfoldable pub attempts_from : (left attempt : ℕ) → S → Outcome Raised (Option A) × S
  unfolding after_run
  attempts_from zero attempt s = (ok none, s)
  attempts_from (suc left) attempt s =
      after_run (left == 0) (attempts_from left (suc attempt)) (func attempt s)

  unfoldable pub retry_on_transient : (attempts : ℕ) → S → Outcome Raised (Option A) × S
  unfolding attempts_from
  retry_on_transient attempts s = attempts_from attempts 1 s

  after_run-again :
      (next : S → Outcome Raised (Option A) × S) (r : Outcome Raised A × S) (e : Raised) (s : S)
      → r ≡ (err e, s)
      → is_transient e ≡ true
      → after_run false next r ≡ next s
  unfolding after_run
  after_run-again next r e s h k = rw h (ground (arith, k))

  after_run-done :
      (last : Bool) (next : S → Outcome Raised (Option A) × S) (r : Outcome Raised A × S) (a : A)
      (s' : S)
      → r ≡ (ok a, s')
      → after_run last next r ≡ (ok (some a), s')
  unfolding after_run
  after_run-done last next r a s' h = rw h refl

  attempts_from-returns :
      (failures left attempt : ℕ) (s s' : S) (a : A) (e : ℕ → Raised)
      → failures < left
      → ((i : ℕ) → i < failures → func (attempt + i) s ≡ (err (e i), s))
      → ((i : ℕ) → i < failures → is_transient (e i) ≡ true)
      → func (attempt + failures) s ≡ (ok a, s')
      → attempts_from left attempt s ≡ (ok (some a), s')
  unfolding attempts_from
  attempts_from-returns failures zero attempt s s' a e h fails transients done =
      absurd (omega arith)
  attempts_from-returns zero (suc left) attempt s s' a e h fails transients done =
      let zero_more : attempt + 0 ≡ attempt = omega arith in
      after_run-done (left == 0) (attempts_from left (suc attempt)) (func attempt s) a s'
        (ap (λ i. func i s) (sym zero_more) ∙ done)
  attempts_from-returns (suc failures) (suc left) attempt s s' a e h fails transients done =
      let zero_more : attempt + 0 ≡ attempt = omega arith in
      let first = ap (λ i. func i s) (sym zero_more) ∙ fails 0 (omega arith) in
      let not_last : (left == 0) ≡ false = ground arith in
      let rest =
        attempts_from-returns failures left (suc attempt) s s' a (λ i. e (suc i)) (omega arith)
          (λ i k. ap (λ j. func j s) (shift attempt i) ∙ fails (suc i) (omega arith))
          (λ i k. transients (suc i) (omega arith))
          (ap (λ j. func j s) (shift attempt failures) ∙ done) in
      ap (λ last. after_run last (attempts_from left (suc attempt)) (func attempt s)) not_last
      ∙ after_run-again (attempts_from left (suc attempt)) (func attempt s) (e 0) s first
          (transients 0 (omega arith))
      ∙ rest

  -- If fewer runs than the allowed attempts end in a deadlock or a lock wait timeout, each leaving
  -- the state as it was, and the next one returns, then the retried function returns its result.
  pub retry_on_transient-returns :
      (attempts failures : ℕ) (s s' : S) (a : A) (e : ℕ → Raised)
      → failures < attempts
      → ((i : ℕ) → i < failures → func (1 + i) s ≡ (err (e i), s))
      → ((i : ℕ) → i < failures → is_transient (e i) ≡ true)
      → func (1 + failures) s ≡ (ok a, s')
      → retry_on_transient attempts s ≡ (ok (some a), s')
  unfolding retry_on_transient
  retry_on_transient-returns attempts failures s s' a e h fails transients done =
      attempts_from-returns failures attempts 1 s s' a e h fails transients done

  -- Any other exception ends the retries at once.
  pub retry_on_transient-raises :
      (attempts : ℕ) (s s' : S) (e : Raised)
      → func 1 s ≡ (err e, s')
      → is_transient e ≡ false
      → retry_on_transient (suc attempts) s ≡ (err e, s')
  unfolding retry_on_transient attempts_from after_run
  retry_on_transient-raises attempts s s' e h k = rw h (ground (arith, k))
