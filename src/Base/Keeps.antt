-- ===== src/Base/Keeps.antt =====
-- Invariants of calls, one rule for each way to build a call.
use mathlib.Core.Bool.{Bool, true, false}
use grout_cni.Base.Results.{Stage, Result, ok, err, panic}
use grout_cni.Base.State.{
  State, pure, lift, wrapped, branch, clean_up, on_error, finally, guard, attempt, continue, ◌>>=◌,
}

-- The call keeps `P`, whether it returns, fails or panics.
pub record Keeps {S A : Type 0} (P : S → Type 0) (m : State S A) : Type 0 where
  pub kept : (s : S) → P s → P (m s).1

module _ {S A : Type 0} {P : S → Type 0} where
  pub Keeps-pure : (a : A) → Keeps P (pure a)
  unfolding pure
  Keeps-pure a = record { kept = λ s h. h }

  pub Keeps-lift : (r : Result A) → Keeps P (lift r)
  unfolding lift
  Keeps-lift r = record { kept = λ s h. h }

  pub Keeps-wrapped : (c : Stage) (m : State S A) → Keeps P m → Keeps P (wrapped c m)
  unfolding wrapped
  Keeps-wrapped c m k = record { kept = k.kept }

  pub Keeps-branch : (b : Bool) (m n : State S A) → Keeps P m → Keeps P n → Keeps P (branch b m n)
  unfolding branch
  Keeps-branch true m n k l = record { kept = k.kept }
  Keeps-branch false m n k l = record { kept = l.kept }

  pub Keeps-on_error :
      (c : State S (Unit {0})) (m : State S A) → Keeps P c → Keeps P m → Keeps P (on_error c m)
  unfolding on_error
  Keeps-on_error c m k l = record { kept = λ s h. step (m s) (l.kept s h) }
    where
      step : (out : Result A × S) → P out.1 → P (clean_up c out).1
      step (ok a, s) h = h
      step (err e, s) h = k.kept s h
      step (panic, s) h = h

  pub Keeps-finally :
      (c : State S (Unit {0})) (m : State S A) → Keeps P c → Keeps P m → Keeps P (finally c m)
  unfolding finally
  Keeps-finally c m k l = record { kept = λ s h. k.kept (m s).1 (l.kept s h) }

module _ {S A : Type 0} {P : S → Type 0} where
  pub Keeps-attempt : (m : State S A) → Keeps P m → Keeps P (attempt m)
  unfolding attempt
  Keeps-attempt m k = record { kept = k.kept }

module _ {S : Type 0} {P : S → Type 0} where
  pub Keeps-guard : (b : Bool) (c : Stage) → Keeps P (guard b c)
  unfolding guard
  Keeps-guard true c = record { kept = λ s h. h }
  Keeps-guard false c = record { kept = λ s h. h }

module _ {S A B : Type 0} {P : S → Type 0} where
  pub Keeps-bind :
      (m : State S A) (f : A → State S B)
      → Keeps P m
      → ((a : A) → Keeps P (f a))
      → Keeps P (m >>= f)
  unfolding ◌>>=◌
  Keeps-bind m f k l = record { kept = λ s h. step (m s) (k.kept s h) }
    where
      step : (out : Result A × S) → P out.1 → P (continue out.0 f out.1).1
      step (ok a, s) h = (l a).kept s h
      step (err e, s) h = h
      step (panic, s) h = h

pub ruleset keeps_rules = (
  Keeps-pure, Keeps-lift, Keeps-wrapped, Keeps-branch, Keeps-on_error, Keeps-finally, Keeps-attempt,
  Keeps-guard, Keeps-bind,
)
