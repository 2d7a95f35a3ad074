-- ===== src/Core/Error.antt =====
-- crates/core/src/error.rs: the errors that the modelled code returns, and the result of a call.
-- The text of an `Internal` error is kept up to the values that it prints.
use knitting_crab.Prelude.{Option, none, some, String}
use knitting_crab.Core.Task.{TaskId}

pub data CoreError : Type 0 where
  already_leased : CoreError
  lease_not_found : CoreError
  stale_lease_id : CoreError
  internal : String → CoreError
  lock_poisoned : String → CoreError
  cyclic_dependency : TaskId → CoreError
  unknown_dependency : TaskId → CoreError
  duplicate_task : TaskId → CoreError
  dependency_failed : TaskId → CoreError

pub data Result {ℓ} (A : Type ℓ) : Type ℓ where
  ok : A → Result A
  err : CoreError → Result A

-- A call with its effect on the state. `panics` is a call that does not return: an index that is
-- not there, an arithmetic underflow, or a model that ran out of fuel.
pub data Outcome {ℓ κ} (S : Type ℓ) (A : Type κ) : Type (ℓ ⊔ κ) where
  returns : S → Result A → Outcome S A
  panics : Outcome S A

infixl 5 ◌>>=◌
abbrev pub ◌>>=◌ {ℓ κ} : {A : Type ℓ} {B : Type κ} → Result A → (A → Result B) → Result B
ok a >>= f = f a
err e >>= f = err e

-- `Option::ok_or`.
abbrev pub ok_or {ℓ} : {A : Type ℓ} → Option A → CoreError → Result A
ok_or none e = err e
ok_or (some a) e = ok a

-- The state that a call leaves; a call that panics leaves it as it was.
abbrev pub state_after {ℓ κ} : {S : Type ℓ} {A : Type κ} → S → Outcome S A → S
state_after s (returns s' r) = s'
state_after s panics = s
