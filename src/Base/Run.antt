-- ===== src/Base/Run.antt =====
-- Runs of C code on a state `W`: a result, a fault (a null or dangling pointer), or a loop that
-- used up its fuel.

use mathlib.Core.Path.{◌≡◌}

pub data Run (W A : Type 0) : Type 0 where
  ok : A → W → Run W A
  fault : Run W A
  out_of_fuel : Run W A

abbrev pub Cmd : Type 0 → Type 0 → Type 0
Cmd W A = W → Run W A

module _ {W : Type 0} where
  abbrev pub pure : {A : Type 0} → A → Cmd W A
  pure = ok

  abbrev pub and_then : {A B : Type 0} → Run W A → (A → Cmd W B) → Run W B
  and_then (ok a w) k = k a w
  and_then fault k = fault
  and_then out_of_fuel k = out_of_fuel

  infixl 5 ◌>>=◌ ◌>>◌
  abbrev pub ◌>>=◌ : {A B : Type 0} → Cmd W A → (A → Cmd W B) → Cmd W B
  m >>= k = λ w. and_then (m w) k

  abbrev pub ◌>>◌ : {A B : Type 0} → Cmd W A → Cmd W B → Cmd W B
  m >> n = m >>= λ _. n

-- Total correctness: the run ends with no fault and enough fuel, and `P` holds of its result.
pub data Returns {W A : Type 0} (P : A → W → Type 0) : Run W A → Type 0 where
  returns : {a : A} {w : W} → P a w → Returns P (ok a w)

module _ {W A : Type 0} {P : A → W → Type 0} where
  -- A run with a known result has the postcondition.
  pub Returns-of_eq : {r : Run W A} (a : A) (w : W) → r ≡ ok a w → P a w → Returns P r
  Returns-of_eq a w e p = rw e (returns p)

  pub Returns-bind :
      {B : Type 0} {Q : B → W → Type 0} {r : Run W A} (k : A → Cmd W B)
      → Returns P r
      → ((a : A) (w : W) → P a w → Returns Q (k a w))
      → Returns Q (and_then r k)
  Returns-bind k (returns p) next = next _ _ p

  pub Returns-mono :
      {Q : A → W → Type 0} {r : Run W A}
      → Returns P r
      → ((a : A) (w : W) → P a w → Q a w)
      → Returns Q r
  Returns-mono (returns p) weaken = returns (weaken _ _ p)
