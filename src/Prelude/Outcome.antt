-- ===== src/Prelude/Outcome.antt =====
-- What a call does: return, or end in a fault of the C++ library that it uses.
use mathlib.Core.Bool.{Bool, true, false}

-- `relock`: a thread locks a `std::shared_mutex` that it owns already, in any mode, which the
-- standard leaves undefined (in practice the thread waits for itself).
-- `out_of_range`: `std::out_of_range` is thrown. `assertion`: an `assert` fails.
-- `out_of_bounds`: memory is read outside of the object, which the language leaves undefined.
-- `dangling`: a null pointer, or a pointer to a deleted object, is followed.
-- `overflow`: an operation on `int` leaves its range, which the language leaves undefined.
-- `out_of_fuel`: the model's own fuel ended before a loop did.
pub data Fault : Type 0 where
  relock out_of_range assertion out_of_bounds dangling overflow out_of_fuel : Fault

pub data Outcome {ℓ} (A : Type ℓ) : Type ℓ where
  ret : A → Outcome A
  fault : Fault → Outcome A

infixl 5 ◌>>=◌
abbrev pub ◌>>=◌ {ℓ κ} : {A : Type ℓ} {B : Type κ} → Outcome A → (A → Outcome B) → Outcome B
ret a >>= f = f a
fault e >>= f = fault e

-- The constructor of a lock guard: `held` says whether the calling thread owns the mutex.
abbrev pub acquire {ℓ} : {A : Type ℓ} → Bool → Outcome A → Outcome A
acquire true body = fault relock
acquire false body = body
