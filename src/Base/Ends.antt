-- ===== src/Base/Ends.antt =====
-- What holds at the end of a call, of its outcome and the state, if something held at its start.
use mathlib.Core.Bool.{Bool, true, false}
use mathlib.Core.Path.{◌≡◌, refl}
use grout_cni.Base.Results.{Stage, Error, Result, ok, err, panic, wrap}
use grout_cni.Base.State.{State, lift, wrapped, branch, clean_up, on_error, continue, ◌>>=◌}
use grout_cni.Base.Keeps.{Keeps}

pub record Ends {S A : Type 0} (P : S → Type 0) (Q : Result A → S → Type 0) (m : State S A)
    : Type 0 where
  pub ends : (s : S) → P s → Q (m s).0 (m s).1

module _ {S A B : Type 0} {P : S → Type 0} {R : Result A → S → Type 0}
    {Q : Result B → S → Type 0} where
  pub Ends-bind :
      (m : State S A) (f : A → State S B)
      → Ends P R m
      → ((a : A) → Ends (R (ok a)) Q (f a))
      → ((e : Error) (s : S) → R (err e) s → Q (err e) s)
      → ((s : S) → R panic s → Q panic s)
      → Ends P Q (m >>= f)
  unfolding ◌>>=◌
  Ends-bind m f h k on_err on_panic = record { ends = λ s p. step (m s) (h.ends s p) }
    where
      step :
          (out : Result A × S)
          → R out.0 out.1
          → Q (continue out.0 f out.1).0 (continue out.0 f out.1).1
      step (ok a, s) r = (k a).ends s r
      step (err e, s) r = on_err e s r
      step (panic, s) r = on_panic s r

module _ {S A : Type 0} {P : S → Type 0} {R Q : Result A → S → Type 0} where
  -- An error is wrapped, and what is wanted of it must allow for that.
  pub Ends-wrapped :
      (c : Stage) (m : State S A)
      → Ends P R m
      → ((r : Result A) (s : S) → R r s → Q (wrap c r) s)
      → Ends P Q (wrapped c m)
  unfolding wrapped
  Ends-wrapped c m h k = record { ends = λ s p. k (m s).0 (m s).1 (h.ends s p) }

  pub Ends-on_error :
      (c : State S (Unit {0})) (m : State S A)
      → Ends P R m
      → ((a : A) (s : S) → R (ok a) s → Q (ok a) s)
      → ((e : Error) (s : S) → R (err e) s → Q (err e) (c s).1)
      → ((s : S) → R panic s → Q panic s)
      → Ends P Q (on_error c m)
  unfolding on_error
  Ends-on_error c m h k on_err on_panic = record { ends = λ s p. step (m s) (h.ends s p) }
    where
      step : (out : Result A × S) → R out.0 out.1 → Q (clean_up c out).0 (clean_up c out).1
      step (ok a, s) r = k a s r
      step (err e, s) r = on_err e s r
      step (panic, s) r = on_panic s r

module _ {S A : Type 0} {P P' : S → Type 0} {R Q : Result A → S → Type 0} where
  pub Ends-weaken :
      (m : State S A)
      → Ends P R m
      → ((s : S) → P' s → P s)
      → ((r : Result A) (s : S) → R r s → Q r s)
      → Ends P' Q m
  Ends-weaken m h before after = record {
    ends = λ s p. after (m s).0 (m s).1 (h.ends s (before s p));
  }

module _ {S A : Type 0} {P : S → Type 0} where
  -- An invariant holds at every end.
  pub Ends-Keeps : (m : State S A) → Keeps P m → Ends P (λ r. P) m
  Ends-Keeps m k = record { ends = k.kept }

module _ {S A : Type 0} {P : S → Type 0} {Q : Result A → S → Type 0} where
  pub Ends-branch :
      (b : Bool) (m n : State S A)
      → (b ≡ true → Ends P Q m)
      → (b ≡ false → Ends P Q n)
      → Ends P Q (branch b m n)
  unfolding branch
  Ends-branch true m n h k = record { ends = (h refl).ends }
  Ends-branch false m n h k = record { ends = (k refl).ends }

module _ {S A B : Type 0} {P : S → Type 0} {Q : Result B → S → Type 0} where
  -- A value is computed, and the equation that says which is kept.
  pub Ends-bind-lift :
      (r : Result A) (f : A → State S B)
      → ((a : A) → r ≡ ok a → Ends P Q (f a))
      → ((e : Error) (s : S) → r ≡ err e → P s → Q (err e) s)
      → ((s : S) → r ≡ panic → P s → Q panic s)
      → Ends P Q (lift r >>= f)
  unfolding ◌>>=◌
  Ends-bind-lift (ok a) f k on_err on_panic = record { ends = (k a refl).ends }
  Ends-bind-lift (err e) f k on_err on_panic = record { ends = λ s p. on_err e s refl p }
  Ends-bind-lift panic f k on_err on_panic = record { ends = λ s p. on_panic s refl p }
