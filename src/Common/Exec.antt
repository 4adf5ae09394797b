-- ===== src/Common/Exec.antt =====
-- C functions over explicit state: what a call returns, and the state that it leaves.
use ostd_final.Common.{Option, none, some, Bool, true, false, ◌≡◌, refl}

-- `fail` is the return value -1, `exited` the end of the process by `exit(EXIT_FAILURE)`,
-- `undefined` an access outside an array, and `unfinished` says that the rounds given to a loop ran
-- out.
pub data Outcome (A : Type 0) : Type 0 where
  ok : A → Outcome A
  fail exited undefined unfinished : Outcome A

abbrev pub Exec : Type 0 → Type 0 → Type 0
Exec S A = S → Outcome A × S

module _ {S : Type 0} where
  abbrev pub pure : {A : Type 0} → A → Exec S A
  pure a s = (ok a, s)

  abbrev pub failed : {A : Type 0} → Exec S A
  failed s = (fail, s)

  abbrev pub get_state : Exec S S
  get_state s = (ok s, s)

  abbrev pub put_state : S → Exec S (Unit {0})
  put_state s _ = (ok tt, s)

  abbrev pub and_then : {A B : Type 0} → Outcome A × S → (A → Exec S B) → Outcome B × S
  and_then (ok a, s) f = f a s
  and_then (fail, s) f = (fail, s)
  and_then (exited, s) f = (exited, s)
  and_then (undefined, s) f = (undefined, s)
  and_then (unfinished, s) f = (unfinished, s)

  infixl 5 ◌>>=◌ ◌>>◌
  abbrev pub ◌>>=◌ : {A B : Type 0} → Exec S A → (A → Exec S B) → Exec S B
  ◌>>=◌ m f s = and_then (m s) f

  abbrev pub ◌>>◌ : {B : Type 0} → Exec S (Unit {0}) → Exec S B → Exec S B
  m >> k = m >>= λ _. k

  -- `if (f() < 0)`: the caller looks at the result itself
  abbrev pub outcome_of : {A : Type 0} → Outcome A × S → Outcome (Option A) × S
  outcome_of (ok a, s) = (ok (some a), s)
  outcome_of (fail, s) = (ok none, s)
  outcome_of (exited, s) = (exited, s)
  outcome_of (undefined, s) = (undefined, s)
  outcome_of (unfinished, s) = (unfinished, s)

  abbrev pub attempt : {A : Type 0} → Exec S A → Exec S (Option A)
  attempt m s = outcome_of (m s)

  -- a call whose result is not looked at
  abbrev pub ignore : {A : Type 0} → Exec S A → Exec S (Unit {0})
  ignore m = attempt m >>= λ _. pure tt

  -- an access that the bounds of its array allow
  abbrev pub in_bounds : Bool → Exec S (Unit {0})
  in_bounds true = λ s. (ok tt, s)
  in_bounds false = λ s. (undefined, s)

  abbrev pub guard : Bool → Exec S (Unit {0})
  guard true = pure tt
  guard false = failed

-- `|| exit(EXIT_FAILURE)`
abbrev pub exit_on_fail : {S A : Type 0} → Outcome A × S → Outcome A × S
exit_on_fail (fail, s) = (exited, s)
exit_on_fail (r, s) = (r, s)

-- A sequence that returns came from a first part that did.
pub and_then-ok :
    {S A B : Type 0} (r : Outcome A × S) (f : A → Exec S B) (b : B) (x : S)
    → and_then r f ≡ (ok b, x)
    → (a : A) × (y : S) × (r ≡ (ok a, y)) × (f a y ≡ (ok b, x))
and_then-ok (ok a, y) f b x e = (a, y, refl, e)
and_then-ok (fail, y) f b x e = cc
and_then-ok (exited, y) f b x e = cc
and_then-ok (undefined, y) f b x e = cc
and_then-ok (unfinished, y) f b x e = cc
