-- ===== src/Shared/Outcome.antt =====
-- Fallible code. Inside a transaction an exception discards what was written (`Tx`); a service
-- function leaves a state behind whether it returns or raises (`Outcome` beside the state).
use mathlib.Core.Path.{◌≡◌, refl}
use mathlib.Core.Logic.{◌⊎◌, inl, inr}
use mathlib.Core.Bool.{Bool, true, false}
use mathlib.Core.Option.{Option, none, some}

pub data Outcome {ℓ} (E A : Type ℓ) : Type ℓ where
  err : E → Outcome E A
  ok : A → Outcome E A

-- Statements of a block: the first exception ends it.
module _ {ℓ} {E A B : Type ℓ} where
  infixl 5 ◌>>=◌
  abbrev pub ◌>>=◌ : Outcome E A → (A → Outcome E B) → Outcome E B
  err exception >>= following = err exception
  ok value >>= following = following value

  -- What a block that returned has computed: the value of its first statement.
  pub bind-ok :
      (first : Outcome E A) (following : A → Outcome E B) {result : B}
      → (first >>= following) ≡ ok result
      → (value : A) × (first ≡ ok value) × (following value ≡ ok result)
  bind-ok (err exception) following h = cc
  bind-ok (ok value) following h = (value, refl, h)

infixl 5 ◌>>◌
abbrev pub ◌>>◌ {ℓ} : {E B : Type ℓ} → Outcome E (Unit {ℓ}) → Outcome E B → Outcome E B
checked >> following = checked >>= λ _. following

-- `if not test: raise e`
abbrev pub require : {E : Type 0} → Bool → E → Outcome E Unit
require test exception = elim test [ true ↦ ok tt | false ↦ err exception ]

-- `if row is None: raise e`
abbrev pub or_raise : {E A : Type 0} → Option A → E → Outcome E A
or_raise none e = err e
or_raise (some a) e = ok a

-- `with transaction() as cur:` around a block that computes the new state: the state after the
-- block if it returns, the state before it if it raises.
abbrev pub settle : {E S A : Type 0} → S → Outcome E (A × S) → Outcome E A × S
settle s (ok (a, s')) = (ok a, s')
settle s (err e) = (err e, s)

-- The block's own result, for functions that return nothing but the new state.
abbrev pub state_after : {E S : Type 0} → S → Outcome E S → S
state_after s (ok s') = s'
state_after s (err e) = s

pub require-then :
    {E A : Type 0} (b : Bool) (e : E) (k : Outcome E A) {a : A}
    → (require b e >> k) ≡ ok a
    → (b ≡ true) × (k ≡ ok a)
require-then true e k h = (refl, h)
require-then false e k h = cc

-- Whether a block returned
abbrev pub is_ok : {E A : Type 0} → Outcome E A → Bool
is_ok (err exception) = false
is_ok (ok value) = true

pub Outcome-cases :
    {E A : Type 0} (r : Outcome E A) → ((e : E) × (r ≡ err e)) ⊎ ((a : A) × (r ≡ ok a))
Outcome-cases (err e) = inl (e, refl)
Outcome-cases (ok a) = inr (a, refl)
